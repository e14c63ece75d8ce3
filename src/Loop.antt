-- ===== src/Loop.antt =====
-- teamspeak_prometheus/loop.py: the poll loop. Times are natural numbers of some unit (milliseconds,
-- say), so that doubling is exact.
pub mod Delay
pub mod Rounds
use teamspeak_prometheus.Base.{
  ℕ, zero, suc, ◌+◌, ◌-◌, ◌*◌, ◌^◌, ◌≤◌, ◌≡◌, refl, Bool, true, false, Option, none, some, List, [],
  ◌∷◌, ◌==◌, leb, if◌then◌else◌, min, max,
}
use teamspeak_prometheus.Service.State.{PollResult}

-- `needed = ceil(log2(cap) - log2(interval))`: the first number of doublings that reaches the cap,
-- searched among the `left` numbers from `k` on
unfoldable pub doublings_from : ℕ → ℕ → ℕ → ℕ → ℕ
doublings_from zero interval cap k = k
doublings_from (suc left) interval cap k = elim (leb cap (interval * 2 ^ k)) [
  | true ↦ k
  | false ↦ doublings_from left interval cap (k + 1)
]

-- a positive interval reaches the cap with `cap` doublings at the latest
unfoldable pub needed : ℕ → ℕ → ℕ
unfolding doublings_from
needed interval cap = doublings_from cap interval cap 0

-- `next_delay`, with `MAX_BACKOFF_IN_SECONDS` in the unit as `max_backoff`
unfoldable pub next_delay : ℕ → ℕ → ℕ → ℕ
unfolding needed
next_delay max_backoff interval consecutive_failures =
    let cap = max interval max_backoff in
    if consecutive_failures == 0
    then interval
    else min (interval * 2 ^ min consecutive_failures (needed interval cap)) cap

next_delay_test : next_delay 60000 5000 3 ≡ 40000
unfolding next_delay
next_delay_test = refl

next_delay_cap_test : next_delay 60000 5000 1000000 ≡ 60000
unfolding next_delay
next_delay_cap_test = refl
