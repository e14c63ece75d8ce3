-- ===== src/ServerQuery/Polled.antt =====
-- service.py over serverquery.py: the sockets of a poll whose client is `ServerQueryClient`.
use teamspeak_prometheus.Base.{ℕ, suc, ◌≡◌, ◌∙◌, refl, ap, List, Text}
use teamspeak_prometheus.Exec.{Result, ok, err, continue}
use teamspeak_prometheus.Characters.{Characters}
use teamspeak_prometheus.Config.{Config}
use teamspeak_prometheus.Metrics.{Floats, Prometheus, IsLawful}
use teamspeak_prometheus.Service.State.{Host, State}
use teamspeak_prometheus.Service.Polling.{Times, log_in_and_read, closing, fetch, stamp_start, poll}
use teamspeak_prometheus.Service.Recorded.{HasAll}
use teamspeak_prometheus.Service.Outcome.{fetched}
use teamspeak_prometheus.Service.Closing.{closing-world, poll-world}
use teamspeak_prometheus.Service.Keeping.{log_in_and_read-Keeps}
use teamspeak_prometheus.ServerQuery.{Socket, Client}
use teamspeak_prometheus.ServerQuery.Connection.{ts3_client}
use teamspeak_prometheus.ServerQuery.Sockets.{
  Counts, opened-IsKept, ts3_client-IsUndisturbed, close-opened, IsBalanced, connect-IsBalanced,
}

-- what the service is given when it is started by `main`: `default_client_factory`
abbrev pub socket_host :
    {W : Type 0} (F : Floats) → Prometheus F.Float → Socket W → Characters → (List ℕ → Text) → Host
socket_host {W} F P S C decode = record {
  floats = F;
  prometheus = P;
  World = Client W;
  client = ts3_client S C decode;
  is_printable = C.is_printable;
}

module _ {W : Type 0} (F : Floats) (P : Prometheus F.Float) (L : IsLawful P) (S : Socket W)
    (C : Characters) (decode : List ℕ → Text) (config : Config F.Float) (secrets : List Text)
    (opened : W → ℕ) (N : Counts S opened) where
  abbrev H : Host
  H = socket_host F P S C decode

  connected-opened :
      (n : ℕ) (x : Result (Unit {0}) × Client W) (s : State H)
      → IsBalanced S C decode opened N n x
      → opened
          (continue
            (let r : Result (Unit {0}) × State H = (x.0, record s { world = x.1 }) in r)
            (λ _. closing H config secrets (log_in_and_read H config secrets))).1.world.world
        ≡ n
  connected-opened n (err e, c) s h = h
  connected-opened n (ok _, c) s h =
      let t : State H = record s { world = c } in
      let K = opened-IsKept S opened (suc n) N in
      let read =
        log_in_and_read-Keeps H (λ d. opened d.world ≡ suc n)
          (ts3_client-IsUndisturbed S C decode (λ w. opened w ≡ suc n) K) config secrets t h in
      ap (λ d. opened d.world)
        (closing-world H L config secrets (log_in_and_read H config secrets) t)
      ∙ (unfold ts3_client in
          close-opened S C decode opened N n (log_in_and_read H config secrets t).1.world read)

  -- If of the actions on sockets only a dial that succeeds opens one and only `close` closes one, raising
  -- or not, and the service has the gauges of all contract metrics, then after every poll of
  -- `ServerQueryClient` as many sockets are open as before it, wherever it fails.
  pub poll-opened :
      (times : Times F.Float) (s : State H)
      → HasAll H s
      → opened (poll H config secrets times s).1.world.world ≡ opened s.world.world
  poll-opened times s h =
      let fetched_opened : opened (fetched H L config secrets times s).1.world.world
          ≡ opened s.world.world =
        unfold fetch stamp_start in
        connected-opened (opened s.world.world)
          ((ts3_client S C decode).connect config.host config.port s.world)
          (stamp_start H config secrets times.started s)
          (connect-IsBalanced S C decode opened N (opened s.world.world) config.host config.port
            s.world refl) in
      ap (λ d. opened d.world) (poll-world H L config secrets times s h) ∙ fetched_opened
