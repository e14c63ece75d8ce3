-- ===== src/Service/Applied.antt =====
-- service.py: the series before and after `_apply`.
use teamspeak_prometheus.Base.{
  ◌≡◌, refl, ap, ◌∙◌, Text, true, false, not, ◌&&◌, Option, none, List, [], if◌then◌else◌, contains,
  list_eq, nat_eq, pair_eq, arith, inl, inr, Bool-cases,
}
use teamspeak_prometheus.Exec.{Result, ok, continue-ok}
use teamspeak_prometheus.Metrics.{IsLawful, metrics_names}
use teamspeak_prometheus.Service.State.{Host, Session, State}
use teamspeak_prometheus.Service.Recording.{
  without, report_duplicates, report_status_changes, record_all, retire, apply_session,
}
use teamspeak_prometheus.Service.Recorded.{
  SameShown, latest, names_read, HasAll, shows, record_all_lem,
}
use teamspeak_prometheus.Service.Forgotten.{
  is_read, latest_read, latest_not_read, contains-names_read, contains-without, forget_lem,
}

module _ (H : Host) (L : IsLawful (H.prometheus)) where
  open H use {floats, prometheus}

  report-SameShown :
      (session : Session floats.Float) (s : State H)
      → SameShown s (
          report_status_changes H session.not_online session.servers
            (report_duplicates H session.owners s))
  unfolding report_status_changes report_duplicates
  report-SameShown session s = record {
    gauges = refl;
    known = refl;
    last_poll = refl;
    errors = refl;
    world = refl;
    last_success = refl;
  }

  -- the state after a session was applied
  pub record Applied (s : State H) (session : Session floats.Float)
      (r : Result (Unit {0}) × State H) : Type 0 where
    pub returns : r.0 ≡ ok tt
    pub has_all : HasAll H r.1
    pub known : r.1.known_virtualservers ≡ names_read session.readings []
    pub last_poll : r.1.exporter.last_poll_timestamp ≡ s.exporter.last_poll_timestamp
    pub errors : r.1.exporter.poll_errors ≡ s.exporter.poll_errors
    pub world : r.1.world ≡ s.world
    pub last_success :
        r.1.exporter.last_successful_poll_timestamp ≡ s.exporter.last_successful_poll_timestamp
    pub written :
        (n l : Text)
        → contains metrics_names n ≡ true
        → shows H r.1 n l ≡ (
            if contains s.known_virtualservers l && not (is_read session.readings l)
            then none
            else latest session.readings n l (shows H s n l))

  apply_session-eq :
      (session : Session floats.Float) (s : State H)
      → HasAll H s
      → apply_session H session s ≡ (
        ok tt,
        retire H session (names_read session.readings []) (record_all H session.readings [] s).1,
      )
  unfolding apply_session
  apply_session-eq session s h =
      continue-ok (record_all H session.readings [] s) (names_read session.readings []) _
        (record_all_lem H L session.readings [] s h).returns

  pub apply_session_lem :
      (session : Session floats.Float) (s : State H)
      → HasAll H s
      → Applied s session (apply_session H session s)
  apply_session_lem session s h =
      let seen = names_read session.readings [] in
      let all_read = record_all_lem H L session.readings [] s h in
      let t : State H = (record_all H session.readings [] s).1 in
      let reported : State H =
        report_status_changes H session.not_online session.servers
          (report_duplicates H session.owners t) in
      let same_shown = report-SameShown session t in
      let gone = forget_lem H L (without t.known_virtualservers seen) reported in
      rw (apply_session-eq session s h) (
        unfold retire in
        record {
          returns = refl;
          has_all = gone.has_all (rw same_shown.gauges all_read.has_all);
          known = refl;
          last_poll = gone.last_poll ∙ same_shown.last_poll ∙ all_read.last_poll;
          errors = gone.errors ∙ same_shown.errors ∙ all_read.errors;
          world = gone.world ∙ same_shown.world ∙ all_read.world;
          last_success = gone.last_success ∙ same_shown.last_success ∙ all_read.last_success;
          written = λ n l m.
              gone.written n l
              ∙ ground (
                arith,
                contains-without t.known_virtualservers seen l,
                contains-names_read session.readings [] l,
                all_read.known,
                same_shown.gauges,
                all_read.written n l m,
              );
        })

  -- No series of a contract metric belongs to a name that the service does not know.
  abbrev pub Tracked : State H → Type 0
  Tracked s =
      (n l : Text)
      → contains metrics_names n ≡ true
      → contains s.known_virtualservers l ≡ false
      → shows H s n l ≡ none

  -- If the service has the gauges of all contract metrics and knows the names of all their series,
  -- applying a session makes every contract series the value of the last reading of its label, and
  -- leaves none without a reading.
  pub apply_session-shows :
      (session : Session floats.Float) (s : State H)
      → HasAll H s
      → Tracked s
      → (n l : Text) → contains metrics_names n ≡ true
      → shows H (apply_session H session s).1 n l ≡ latest session.readings n l none
  apply_session-shows session s h tracked n l m =
      let applied = (apply_session_lem session s h).written n l m in
      let gone : Option floats.Float = none in
      elim (Bool-cases (is_read session.readings l)) [
        | inl e ↦
            ground (arith, applied, e, latest_read session.readings n l (shows H s n l) none e)
        | inr e ↦ ground (
          arith,
          applied,
          e,
          latest_not_read session.readings n l (shows H s n l) e,
          latest_not_read session.readings n l gone e,
          tracked n l m,
        )
      ]

  pub apply_session-Tracked :
      (session : Session floats.Float) (s : State H)
      → HasAll H s
      → Tracked s
      → Tracked (apply_session H session s).1
  apply_session-Tracked session s h tracked n l m unknown =
      let known = (apply_session_lem session s h).known in
      let not_read : is_read session.readings l ≡ false = ground (
        arith,
        contains-names_read session.readings [] l,
        known,
        unknown,
        ap (λ (k : List Text). contains k l) known,
      ) in
      apply_session-shows session s h tracked n l m
      ∙ latest_not_read session.readings n l none not_read
