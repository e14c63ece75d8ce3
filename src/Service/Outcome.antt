-- ===== src/Service/Outcome.antt =====
-- service.py: what `poll` returns and leaves, on every branch.
use teamspeak_prometheus.Base.{
  ◌≡◌, ◌≢◌, refl, subst, ◌∙◌, Text, true, none, List, contains, list_eq, nat_eq, inl, inr, ◌⊎◌,
}
use teamspeak_prometheus.Exec.{Result, ok, err, Exception, continue-ok, continue-err}
use teamspeak_prometheus.Config.{Config}
use teamspeak_prometheus.Metrics.{IsLawful, metrics_names}
use teamspeak_prometheus.Service.State.{Host, PollResult, Session, State}
use teamspeak_prometheus.Service.Recording.{apply_session}
use teamspeak_prometheus.Service.Polling.{
  Times, fetch, poll_once, reason, record_failure, stamp_start, stamp_end, poll,
}
use teamspeak_prometheus.Service.Results.{IsRead, fetch-IsRead}
use teamspeak_prometheus.Service.Snapshot.{Kept, fetch-Frames}
use teamspeak_prometheus.Service.Recorded.{latest, HasAll, shows}
use teamspeak_prometheus.Service.Applied.{
  apply_session_lem, Tracked, apply_session-shows, apply_session-Tracked,
}

module _ (H : Host) (L : IsLawful (H.prometheus)) (config : Config (H.floats.Float))
    (secrets : List Text) where
  open H use {floats, prometheus, client}

  -- the poll's session, or the exception that ended it
  abbrev pub fetched : Times floats.Float → State H → Result (Session floats.Float) × State H
  fetched times s = fetch H config secrets (stamp_start H config secrets times.started s)

  pub result_cases :
      {A : Type 0} (r : Result A) → ((a : A) × (r ≡ ok a)) ⊎ ((e : Exception) × (r ≡ err e))
  result_cases (ok a) = inl (a, refl)
  result_cases (err e) = inr (e, refl)

  pub fetched-Kept :
      (times : Times floats.Float) (s : State H)
      → Kept (stamp_start H config secrets times.started s) (fetched times s).1
  fetched-Kept times s =
      (fetch-Frames H config secrets).at (stamp_start H config secrets times.started s)

  pub fetched-HasAll :
      (times : Times floats.Float) (s : State H) → HasAll H s → HasAll H (fetched times s).1
  fetched-HasAll times s h = rw (fetched-Kept times s).gauges (unfold stamp_start in h)

  pub fetched-Tracked :
      (times : Times floats.Float) (s : State H) → Tracked H L s → Tracked H L (fetched times s).1
  fetched-Tracked times s h n l m unknown =
      let kept = fetched-Kept times s in
      rw kept.gauges
        (unfold stamp_start in h n l m (rw (← kept.known) (unfold stamp_start in unknown)))

  pub poll_of_err :
      (times : Times floats.Float) (s : State H) (e : Exception)
      → (fetched times s).0 ≡ err e
      → poll H config secrets times s ≡ (
        PollResult.failed,
        stamp_end H config secrets times PollResult.failed
            (record_failure H config secrets (reason e) (fetched times s).1),
      )
  poll_of_err times s e h =
      let once : poll_once H config secrets (stamp_start H config secrets times.started s)
          ≡ (err e, (fetched times s).1) =
        unfold poll_once in continue-err (fetched times s) e _ h in
      unfold poll in rw once

  pub poll_of_ok :
      (times : Times floats.Float) (s : State H) (session : Session floats.Float)
      → HasAll H s
      → (fetched times s).0 ≡ ok session
      → poll H config secrets times s ≡ (
        session.result,
        stamp_end H config secrets times session.result
            (apply_session H session (fetched times s).1).1,
      )
  poll_of_ok times s session all_gauges h =
      let t : State H = (fetched times s).1 in
      let applied = apply_session_lem H L session t (fetched-HasAll times s all_gauges) in
      let once : poll_once H config secrets (stamp_start H config secrets times.started s)
          ≡ (ok session.result, (apply_session H session t).1) =
        unfold poll_once in
        (continue-ok (fetched times s) session _ h
          ∙ continue-ok (apply_session H session t) tt _ applied.returns) in
      unfold poll in rw once

  -- what a poll leaves in place when it fails
  pub record Unchanged (s t : State H) : Type 0 where
    pub gauges : t.gauges ≡ s.gauges
    pub missing_fields : t.exporter.missing_fields ≡ s.exporter.missing_fields
    pub known : t.known_virtualservers ≡ s.known_virtualservers
    pub last_success :
        t.exporter.last_successful_poll_timestamp ≡ s.exporter.last_successful_poll_timestamp

  pub fetched-ne-failed :
      (r : Result (Session floats.Float)) (session : Session floats.Float)
      → IsRead r
      → r ≡ ok session
      → session.result ≢ PollResult.failed
  fetched-ne-failed r session h e = subst (λ x. IsRead x) e h

  failed-Unchanged :
      (times : Times floats.Float) (s : State H) (why : Text)
      → Unchanged s (
          stamp_end H config secrets times PollResult.failed
            (record_failure H config secrets why (fetched times s).1))
  failed-Unchanged times s why =
      let kept = fetched-Kept times s in
      unfold stamp_end record_failure stamp_start in
      record {
        gauges = kept.gauges;
        missing_fields = kept.missing_fields;
        known = kept.known;
        last_success = kept.last_success;
      }

  -- A poll that fails leaves every series, the known names and the time of the last success as they
  -- were, wherever it fails, if the service has the gauges of all contract metrics.
  pub poll-failed :
      (times : Times floats.Float) (s : State H)
      → HasAll H s
      → (poll H config secrets times s).0 ≡ PollResult.failed
      → Unchanged s (poll H config secrets times s).1
  poll-failed times s h failed = elim (result_cases (fetched times s).0) [
    | inr (e, raised) ↦ rw (poll_of_err times s e raised) (failed-Unchanged times s (reason e))
    | inl (session, read) ↦ absurd (
        fetched-ne-failed (fetched times s).0 session
          (fetch-IsRead H config secrets (stamp_start H config secrets times.started s)) read
          (rw (poll_of_ok times s session h read) at failed))
  ]

  stamp_end-shows :
      (times : Times floats.Float) (result : PollResult) (s : State H) (n l : Text)
      → shows H (stamp_end H config secrets times result s) n l ≡ shows H s n l
  unfolding stamp_end
  stamp_end-shows times result s n l = refl

  -- If the service has the gauges of all contract metrics and knows the names of all their series, a
  -- poll whose session was read returns the session's result. Every series of a contract metric is
  -- then what the last reading of its label had, and there is none without a reading.
  pub poll-shows :
      (times : Times floats.Float) (s : State H) (session : Session floats.Float)
      → HasAll H s
      → Tracked H L s
      → (fetched times s).0 ≡ ok session
      → (n l : Text) → contains metrics_names n ≡ true
      → ((poll H config secrets times s).0 ≡ session.result)
        × (shows H (poll H config secrets times s).1 n l ≡ latest session.readings n l none)
  poll-shows times s session h tracked read n l m =
      let t : State H = (fetched times s).1 in
      rw (poll_of_ok times s session h read) (
        refl,
        stamp_end-shows times session.result (apply_session H session t).1 n l
            ∙ apply_session-shows H L session t (fetched-HasAll times s h)
                (fetched-Tracked times s tracked) n l m,
      )

  -- What every state of the service keeps.
  pub record IsService (s : State H) : Type 0 where
    pub has_all : HasAll H s
    pub tracked : Tracked H L s

  -- If the service has the gauges of all contract metrics and knows the names of all their series, this
  -- is so after a poll as well, whatever its outcome.
  pub poll-IsService :
      (times : Times floats.Float) (s : State H)
      → IsService s
      → IsService (poll H config secrets times s).1
  poll-IsService times s v =
      let t : State H = (fetched times s).1 in
      let all_gauges = fetched-HasAll times s v.has_all in
      let tracked = fetched-Tracked times s v.tracked in
      elim (result_cases (fetched times s).0) [
        | inr (e, raised) ↦
            rw (poll_of_err times s e raised) (
              unfold stamp_end record_failure in record { has_all = all_gauges; tracked = tracked })
        | inl (session, read) ↦ rw (poll_of_ok times s session v.has_all read) (
            unfold stamp_end in
            record {
              has_all = (apply_session_lem H L session t all_gauges).has_all;
              tracked = apply_session-Tracked H L session t all_gauges tracked;
            })
      ]
