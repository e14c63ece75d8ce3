-- ===== src/Service/Closing.antt =====
-- service.py: the calls of the client with which a poll ends.
use teamspeak_prometheus.Base.{◌≡◌, refl, Text, List, inl, inr, ◌⊎◌}
use teamspeak_prometheus.Exec.{Exec, Result, ok, err, Exception}
use teamspeak_prometheus.Config.{Config}
use teamspeak_prometheus.Metrics.{IsLawful}
use teamspeak_prometheus.Service.State.{Host, State}
use teamspeak_prometheus.Service.Reading.{on_client}
use teamspeak_prometheus.Service.Polling.{
  Times, all_secrets, closed_with, closing, record_failure, stamp_end, poll,
}
use teamspeak_prometheus.Service.Recorded.{HasAll}
use teamspeak_prometheus.Service.Applied.{apply_session_lem}
use teamspeak_prometheus.Service.Outcome.{
  fetched, result_cases, fetched-HasAll, poll_of_err, poll_of_ok,
}

module _ (H : Host) (L : IsLawful (H.prometheus)) (config : Config (H.floats.Float))
    (secrets : List Text) where
  open H use {floats, client, World}

  -- How the calls of a poll end in world `w`: with the connection that failed, or with `close`.
  abbrev pub Ends : Result (Unit {0}) × World → World → Type 0
  Ends connected w =
      ((e : Exception) × (connected.0 ≡ err e) × (w ≡ connected.1))
      ⊎ ((before : World) × (connected.0 ≡ ok tt) × (w ≡ (client.close before).1))

  closed_with-state :
      {A : Type 0} (c : Result (Unit {0}) × State H) (r : Result A)
      → (closed_with H config secrets c r).1 ≡ c.1
  closed_with-state (ok a, s) r = refl
  closed_with-state (err e, s) r = refl

  pub closing-world :
      {A : Type 0} (body : Exec (State H) A) (s : State H)
      → (closing H config secrets body s).1.world ≡ (client.close (body s).1.world).1
  unfolding closing
  closing-world body s = λ i.
      (closed_with-state (on_client H (all_secrets H config secrets) client.close (body s).1)
        (body s).0 i).world

  pub poll-world :
      (times : Times floats.Float) (s : State H)
      → HasAll H s
      → (poll H config secrets times s).1.world ≡ (fetched H L config secrets times s).1.world
  poll-world times s h =
      elim (result_cases H L config secrets (fetched H L config secrets times s).0) [
        | inr (e, raised) ↦
            rw (poll_of_err H L config secrets times s e raised)
              (unfold stamp_end record_failure in refl)
        | inl (session, read) ↦
            let t : State H = (fetched H L config secrets times s).1 in
            rw (poll_of_ok H L config secrets times s session h read) (
              unfold stamp_end in
              (apply_session_lem H L session t (fetched-HasAll H L config secrets times s h)).world)
      ]
