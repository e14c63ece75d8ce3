-- ===== src/Service/Counts.antt =====
-- service.py: `poll_errors` after a poll.
use teamspeak_prometheus.Base.{
  ◌≡◌, ◌≤◌, ◌<◌, refl, sym, subst, Text, List, true, false, contains, same_refl, arith, inl, inr,
  list_eq, nat_eq,
}
use teamspeak_prometheus.Exec.{Exception, login_failed, server_query_error, os_error, unexpected}
use teamspeak_prometheus.Config.{Config}
use teamspeak_prometheus.Metrics.{IsLawful}
use teamspeak_prometheus.Metrics.Registry.{error_reasons}
use teamspeak_prometheus.Service.State.{Host, PollResult, State}
use teamspeak_prometheus.Service.Counting.{Counted, one_more, count-Counted}
use teamspeak_prometheus.Service.Recording.{apply_session}
use teamspeak_prometheus.Service.Polling.{
  Times, reason, record_failure, stamp_start, stamp_end, poll,
}
use teamspeak_prometheus.Service.Recorded.{HasAll}
use teamspeak_prometheus.Service.Applied.{apply_session_lem}
use teamspeak_prometheus.Service.Results.{fetch-IsRead}
use teamspeak_prometheus.Service.Outcome.{
  fetched, fetched-ne-failed, result_cases, fetched-Kept, fetched-HasAll, poll_of_err, poll_of_ok,
}

contains-reason : (e : Exception) → contains error_reasons (reason e) ≡ true
unfolding reason list_eq nat_eq
contains-reason (login_failed m) = refl
contains-reason (server_query_error m) = refl
contains-reason (os_error k m) = refl
contains-reason unexpected = refl

module _ (H : Host) (L : IsLawful (H.prometheus)) (config : Config (H.floats.Float))
    (secrets : List Text) where
  open H use {floats, prometheus}
  open prometheus use {count}

  fetched-Counted :
      (times : Times floats.Float) (s : State H)
      → Counted prometheus s.exporter.poll_errors
          (fetched H L config secrets times s).1.exporter.poll_errors
  fetched-Counted times s = unfold stamp_start in (fetched-Kept H L config secrets times s).errors

  -- what the counts are after a poll
  pub record Counts (s : State H) (result : PollResult) (t : State H) : Type 0 where
    pub rises : (l : Text) → count s.exporter.poll_errors l ≤ count t.exporter.poll_errors l
    pub other :
        (l : Text)
        → contains error_reasons l ≡ false
        → count t.exporter.poll_errors l ≡ count s.exporter.poll_errors l
    pub failure :
        result ≡ PollResult.failed
        → (l : Text) × (contains error_reasons l ≡ true)
          × (count s.exporter.poll_errors l < count t.exporter.poll_errors l)

  failed-Counts :
      (times : Times floats.Float) (s : State H) (e : Exception)
      → Counts s PollResult.failed (
          stamp_end H config secrets times PollResult.failed
            (record_failure H config secrets (reason e) (fetched H L config secrets times s).1))
  unfolding stamp_end record_failure
  failed-Counts times s e =
      let before = fetched-Counted times s in
      let after = one_more (reason e) (contains-reason e) refl before in
      let counted =
        L.count-inc (fetched H L config secrets times s).1.exporter.poll_errors (reason e)
          (reason e) in
      let raised = rw (same_refl (reason e)) at counted in
      record {
        rises = λ l. (count-Counted prometheus L l after).0;
        other = λ l. (count-Counted prometheus L l after).1;
        failure = λ _. (
          reason e,
          contains-reason e,
          omega (arith, raised, (count-Counted prometheus L (reason e) before).0),
        );
      }

  -- If the service has the gauges of all contract metrics, no poll lowers a count of `poll_errors`, and
  -- none counts an error under a label that is not one of `ERROR_REASONS`. A poll that fails raises the
  -- count of one of these.
  pub poll-Counts :
      (times : Times floats.Float) (s : State H)
      → HasAll H s
      → Counts s (poll H config secrets times s).0 (poll H config secrets times s).1
  poll-Counts times s h =
      elim (result_cases H L config secrets (fetched H L config secrets times s).0) [
        | inr (e, raised) ↦
            rw (poll_of_err H L config secrets times s e raised) (failed-Counts times s e)
        | inl (session, read) ↦
            let t : State H = (fetched H L config secrets times s).1 in
            let applied =
              apply_session_lem H L session t (fetched-HasAll H L config secrets times s h) in
            let after : Counted prometheus s.exporter.poll_errors
                (apply_session H session t).1.exporter.poll_errors =
              subst (λ c. Counted prometheus s.exporter.poll_errors c) (sym applied.errors)
                (fetched-Counted times s) in
            let ne =
              fetched-ne-failed H L config secrets (fetched H L config secrets times s).0 session
                (fetch-IsRead H config secrets (stamp_start H config secrets times.started s))
                read in
            rw (poll_of_ok H L config secrets times s session h read) (
              unfold stamp_end in
              record {
                rises = λ l. (count-Counted prometheus L l after).0;
                other = λ l. (count-Counted prometheus L l after).1;
                failure = λ failed. absurd (ne failed);
              })
      ]
