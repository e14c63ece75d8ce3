-- ===== src/Service/Running.antt =====
-- service.py: `__init__`, and polls one after another as `poll_forever` makes them.
use teamspeak_prometheus.Base.{
  ◌≡◌, refl, Text, true, none, List, [], ◌∷◌, same, contains, arith, Bool-cases, list_eq, nat_eq,
}
use teamspeak_prometheus.Base.Dict
use teamspeak_prometheus.Base.Dict.{Dict, get-put}
use teamspeak_prometheus.Exec.{ok}
use teamspeak_prometheus.Metrics.{Floats, Prometheus, IsLawful, metrics_names, build_gauges}
use teamspeak_prometheus.Metrics.Series.{reading, build_gauges-names}
use teamspeak_prometheus.Config.{Config}
use teamspeak_prometheus.Service.State.{Host, Session, ExporterMetrics, State}
use teamspeak_prometheus.Service.Polling.{Times, poll}
use teamspeak_prometheus.Service.Recorded.{latest, shows}
use teamspeak_prometheus.Service.Outcome.{fetched, IsService, poll-IsService, poll-shows}

-- the state that `__init__` leaves, with the gauges of `build_gauges`
unfoldable pub new_service : (H : Host) → H.World → ExporterMetrics H → State H
new_service H world exporter = record {
  world = world;
  gauges = build_gauges H.floats H.prometheus metrics_names [];
  exporter = exporter;
  known_virtualservers = [];
  warned_missing = [];
  not_online = [];
  warned_duplicates = [];
  log = [];
}

module _ (F : Floats) (P : Prometheus F.Float) (L : IsLawful P) where
  reading-put_new :
      (gauges : Dict Text P.Gauge) (name n l : Text)
      → reading F P gauges n l ≡ none
      → reading F P (Dict.put gauges name P.new) n l ≡ none
  unfolding reading
  reading-put_new gauges name n l h =
      rw get-put (ground (arith, h, Bool-cases (same name n), L.series-new l))

  reading-build_gauges :
      (names : List Text) (gauges : Dict Text P.Gauge) (n l : Text)
      → reading F P gauges n l ≡ none
      → reading F P (build_gauges F P names gauges) n l ≡ none
  unfolding build_gauges
  reading-build_gauges [] gauges n l h = h
  reading-build_gauges (name ∷ names) gauges n l h =
      reading-build_gauges names (Dict.put gauges name P.new) n l
        (reading-put_new gauges name n l h)

module _ (H : Host) (L : IsLawful (H.prometheus)) (config : Config (H.floats.Float))
    (secrets : List Text) where
  open H use {floats, prometheus}

  -- the states after each of a list of polls
  unfoldable pub after_polls : List (Times floats.Float) → State H → State H
  after_polls [] s = s
  after_polls (times ∷ more) s = after_polls more (poll H config secrets times s).1

  pub new_service-IsService :
      (world : H.World) (exporter : ExporterMetrics H)
      → IsService H L config secrets (new_service H world exporter)
  unfolding new_service
  new_service-IsService world exporter = record {
    has_all = build_gauges-names floats prometheus metrics_names [];
    tracked = λ n l _ _.
        reading-build_gauges floats prometheus L metrics_names [] n l
          (unfold reading in unfold Dict.get in refl);
  }

  after_polls-IsService :
      (polls : List (Times floats.Float)) (s : State H)
      → IsService H L config secrets s
      → IsService H L config secrets (after_polls polls s)
  unfolding after_polls
  after_polls-IsService [] s h = h
  after_polls-IsService (times ∷ more) s h =
      after_polls-IsService more (poll H config secrets times s).1
        (poll-IsService H L config secrets times s h)

  -- However many polls a service has made since it was built, and whatever became of them: once the
  -- next poll has read its session, every contract series is the last reading of its label, and there
  -- is none without a reading.
  pub after_polls-shows :
      (world : H.World) (exporter : ExporterMetrics H) (polls : List (Times floats.Float))
      (times : Times floats.Float) (session : Session floats.Float)
      → (fetched H L config secrets times (after_polls polls (new_service H world exporter))).0
        ≡ ok session
      → (n l : Text) → contains metrics_names n ≡ true
      → shows H
          (poll H config secrets times (after_polls polls (new_service H world exporter))).1
          n
          l
        ≡ latest session.readings n l none
  after_polls-shows world exporter polls times session read n l m =
      let s = after_polls polls (new_service H world exporter) in
      let h =
        after_polls-IsService polls (new_service H world exporter)
          (new_service-IsService world exporter) in
      (poll-shows H L config secrets times s session h.has_all h.tracked read n l m).1
