-- ===== src/Service/Recorded.antt =====
-- service.py: the series before and after `_record`.
use teamspeak_prometheus.Base.{
  ◌≡◌, refl, ap, ◌∙◌, Text, true, ◌&&◌, Option, List, [], ◌∷◌, if◌then◌else◌, same, contains,
  length, list_eq, nat_eq, pair_eq, arith,
}
use teamspeak_prometheus.Base.Dict
use teamspeak_prometheus.Base.Dict.{Dict}
use teamspeak_prometheus.Exec.{Result, ok, continue-ok}
use teamspeak_prometheus.Metrics.{IsLawful, metrics_names, update_gauges}
use teamspeak_prometheus.Metrics.Series.{
  HasGauges, reading, update_gauges_lem, update_gauges-HasGauges, unread,
}
use teamspeak_prometheus.Metrics.Staging.{stage, numeric-stage}
use teamspeak_prometheus.Service.State.{Host, State}
use teamspeak_prometheus.Service.Recording.{
  add_name, warn_one, warn_missing, set_missing, record_reading, record_all,
}

-- The gauges, the known names and the time stamps are the same.
pub record SameShown {H : Host} (s t : State H) : Type 0 where
  pub gauges : t.gauges ≡ s.gauges
  pub known : t.known_virtualservers ≡ s.known_virtualservers
  pub last_poll : t.exporter.last_poll_timestamp ≡ s.exporter.last_poll_timestamp
  pub errors : t.exporter.poll_errors ≡ s.exporter.poll_errors
  pub world : t.world ≡ s.world
  pub last_success :
      t.exporter.last_successful_poll_timestamp ≡ s.exporter.last_successful_poll_timestamp

-- the value of a metric for a label after some readings, the last one of a name winning
abbrev pub latest : {V : Type 0} → List (Text × Dict Text V) → Text → Text → Option V → Option V
latest [] metric label old = old
latest ((name, values) ∷ readings) metric label old =
    latest readings metric label (if same label name then Dict.get values metric else old)

-- `seen` after some readings
abbrev pub names_read : {V : Type 0} → List (Text × Dict Text V) → List Text → List Text
names_read [] seen = seen
names_read ((name, values) ∷ readings) seen = names_read readings (add_name seen name)

module _ (H : Host) where
  open H use {floats, prometheus}

  -- every contract metric has its gauge
  abbrev pub HasAll : State H → Type 0
  HasAll s = HasGauges floats prometheus metrics_names s.gauges

  -- what a scrape shows of a metric for a label
  abbrev pub shows : State H → Text → Text → Option floats.Float
  shows s metric label = reading floats prometheus s.gauges metric label

  warn_one-SameShown : (name missing : Text) (s : State H) → SameShown s (warn_one H name missing s)
  unfolding warn_one
  warn_one-SameShown name missing s = ground arith

  warn_missing-SameShown :
      (name : Text) (skipped : List Text) (s : State H)
      → SameShown s (warn_missing H name skipped s)
  unfolding warn_missing
  warn_missing-SameShown name [] s = record {
    gauges = refl;
    known = refl;
    last_poll = refl;
    errors = refl;
    world = refl;
    last_success = refl;
  }
  warn_missing-SameShown name (missing ∷ skipped) s =
      let one = warn_one-SameShown name missing s in
      let more = warn_missing-SameShown name skipped (warn_one H name missing s) in
      record {
        gauges = more.gauges ∙ one.gauges;
        known = more.known ∙ one.known;
        last_poll = more.last_poll ∙ one.last_poll;
        errors = more.errors ∙ one.errors;
        world = more.world ∙ one.world;
        last_success = more.last_success ∙ one.last_success;
      }

  module _ (L : IsLawful prometheus) where
    -- the state after one reading was recorded
    pub record Recorded (s : State H) (name : Text) (values : Dict Text floats.Float)
        (r : Result (Unit {0}) × State H) : Type 0 where
      pub returns : r.0 ≡ ok tt
      pub has_all : HasAll r.1
      pub known : r.1.known_virtualservers ≡ s.known_virtualservers
      pub last_poll : r.1.exporter.last_poll_timestamp ≡ s.exporter.last_poll_timestamp
      pub errors : r.1.exporter.poll_errors ≡ s.exporter.poll_errors
      pub world : r.1.world ≡ s.world
      pub last_success :
          r.1.exporter.last_successful_poll_timestamp ≡ s.exporter.last_successful_poll_timestamp
      pub written :
          (n l : Text)
          → shows r.1 n l
            ≡ (if contains metrics_names n && same l name then Dict.get values n else shows s n l)

    record_reading-eq :
        (name : Text) (values : Dict Text floats.Float) (s : State H)
        → HasAll s
        → let updated = update_gauges floats prometheus s.gauges name (stage floats values) in
          let skipped = unread floats prometheus (stage floats values) metrics_names in
          record_reading H name values s ≡ (
            ok tt,
            warn_missing H name skipped
                (set_missing H name (length skipped) (record s { gauges = updated.1 })),
          )
    unfolding record_reading
    record_reading-eq name values s h =
        let returned =
          (update_gauges_lem floats prometheus L s.gauges name (stage floats values) h).0 in
        rw returned

    record_reading_lem :
        (name : Text) (values : Dict Text floats.Float) (s : State H)
        → HasAll s
        → Recorded s name values (record_reading H name values s)
    record_reading_lem name values s h =
        let updated = update_gauges floats prometheus s.gauges name (stage floats values) in
        let skipped = unread floats prometheus (stage floats values) metrics_names in
        let base : State H =
          set_missing H name (length skipped) (record s { gauges = updated.1 }) in
        let kept = warn_missing-SameShown name skipped base in
        rw (record_reading-eq name values s h) (record {
          returns = refl;
          has_all =
              rw kept.gauges
                (update_gauges-HasGauges floats prometheus L s.gauges name (stage floats values) h);
          known = kept.known;
          last_poll = kept.last_poll;
          errors = kept.errors;
          world = kept.world;
          last_success = kept.last_success;
          written = λ n l. rw kept.gauges (
              rw (← numeric-stage floats values n) (
                (update_gauges_lem floats prometheus L s.gauges name (stage floats values) h).1 n
                  l));
        })

    pub record RecordedAll (s : State H) (readings : List (Text × Dict Text floats.Float))
        (seen : List Text) (r : Result (List Text) × State H) : Type 0 where
      pub returns : r.0 ≡ ok (names_read readings seen)
      pub has_all : HasAll r.1
      pub known : r.1.known_virtualservers ≡ s.known_virtualservers
      pub last_poll : r.1.exporter.last_poll_timestamp ≡ s.exporter.last_poll_timestamp
      pub errors : r.1.exporter.poll_errors ≡ s.exporter.poll_errors
      pub world : r.1.world ≡ s.world
      pub last_success :
          r.1.exporter.last_successful_poll_timestamp ≡ s.exporter.last_successful_poll_timestamp
      pub written :
          (n l : Text)
          → contains metrics_names n ≡ true
          → shows r.1 n l ≡ latest readings n l (shows s n l)

    record_all-cons :
        (name : Text) (values : Dict Text floats.Float)
        (readings : List (Text × Dict Text floats.Float)) (seen : List Text) (s : State H)
        → HasAll s
        → record_all H ((name, values) ∷ readings) seen s
          ≡ record_all H readings (add_name seen name) (record_reading H name values s).1
    record_all-cons name values readings seen s h =
        let done = (record_reading_lem name values s h).returns in
        unfold record_all in continue-ok (record_reading H name values s) tt _ done

    pub record_all_lem :
        (readings : List (Text × Dict Text floats.Float)) (seen : List Text) (s : State H)
        → HasAll s
        → RecordedAll s readings seen (record_all H readings seen s)
    record_all_lem [] seen s h =
        unfold record_all in
        record {
          returns = refl;
          has_all = h;
          known = refl;
          last_poll = refl;
          errors = refl;
          world = refl;
          last_success = refl;
          written = λ n l m. refl;
        }
    record_all_lem ((name, values) ∷ readings) seen s h =
        let one = record_reading_lem name values s h in
        let more =
          record_all_lem readings (add_name seen name) (record_reading H name values s).1
            one.has_all in
        rw (record_all-cons name values readings seen s h) (record {
          returns = more.returns;
          has_all = more.has_all;
          known = more.known ∙ one.known;
          last_poll = more.last_poll ∙ one.last_poll;
          errors = more.errors ∙ one.errors;
          world = more.world ∙ one.world;
          last_success = more.last_success ∙ one.last_success;
          written =
              λ n l m. more.written n l m ∙ ap (latest readings n l) (one.written n l ∙ (rw m));
        })
