-- ===== src/Loop/Delay.antt =====
-- loop.py: the waits that `next_delay` gives.
use native.Mathlib.Nat.{pow-suc, pow-le-pow_right}
use teamspeak_prometheus.Base.{
  ℕ, zero, suc, ◌+◌, ◌*◌, ◌^◌, ◌≤◌, ◌<◌, ◌≡◌, false, ◌==◌, leb, min, max, arith, Bool-cases, inl,
  inr,
}
use teamspeak_prometheus.Loop.{doublings_from, needed, next_delay}

pow_double : (n : ℕ) → 2 ^ suc n ≡ 2 ^ n + 2 ^ n
pow_double n = rw pow-suc (omega arith)

lt-pow : (n : ℕ) → n < 2 ^ n
lt-pow zero = omega arith
lt-pow (suc n) = rw pow_double (omega (arith, lt-pow n))

pow_mono : (a b : ℕ) → a ≤ b → 2 ^ a ≤ 2 ^ b
pow_mono a b h = pow-le-pow_right (omega arith) h

doublings_from-reaches :
    (left interval cap k : ℕ)
    → cap ≤ interval * 2 ^ (left + k)
    → cap ≤ interval * 2 ^ doublings_from left interval cap k
unfolding doublings_from
doublings_from-reaches zero interval cap k h = let here : 0 + k ≡ k = omega arith in rw here at h
doublings_from-reaches (suc left) interval cap k h =
    elim (Bool-cases (leb cap (interval * 2 ^ k))) [
      | inl e ↦ rw (e, doublings_from) (ground arith)
      | inr e ↦
          let later : suc left + k ≡ left + (k + 1) = omega arith in
          rw (e, doublings_from) (doublings_from-reaches left interval cap (k + 1) (rw later at h))
    ]

-- the doublings that are needed reach the cap
needed-reaches : (interval cap : ℕ) → 0 < interval → cap ≤ interval * 2 ^ needed interval cap
unfolding needed
needed-reaches interval cap h =
    doublings_from-reaches cap interval cap 0
      (let shifted : cap + 0 ≡ cap = omega arith in rw shifted (grind (arith, lt-pow cap)))

mul_mono : (i a b : ℕ) → a ≤ b → i * a ≤ i * b
mul_mono i a b h = grind arith

pub next_delay_lem :
    (max_backoff interval failures : ℕ)
    → 0 < interval
    → next_delay max_backoff interval failures
      ≡ min (interval * 2 ^ failures) (max interval max_backoff)
unfolding next_delay
next_delay_lem max_backoff interval zero h = omega arith
next_delay_lem max_backoff interval (suc n) h =
    let cap = max interval max_backoff in
    let enough = needed-reaches interval cap h in
    let k = needed interval cap in
    let counted : (suc n == 0) ≡ false = ground arith in
    elim (Bool-cases (leb (suc n) k)) [
      | inl e ↦ let least : min (suc n) k ≡ suc n = ground arith in rw (counted, least)
      | inr e ↦
          let least : min (suc n) k ≡ k = ground arith in
          let more = mul_mono interval (2 ^ k) (2 ^ suc n) (pow_mono k (suc n) (ground arith)) in
          rw (counted, least) (omega (arith, enough, more))
    ]

-- For a positive interval the wait is never below the interval, never above the larger of the interval
-- and the cap, and does not shrink with more failures.
pub next_delay_bounds :
    (max_backoff interval failures more : ℕ)
    → 0 < interval
    → failures ≤ more
    → (interval ≤ next_delay max_backoff interval failures)
      × (next_delay max_backoff interval failures ≤ next_delay max_backoff interval more)
      × (next_delay max_backoff interval more ≤ max interval max_backoff)
next_delay_bounds max_backoff interval failures more h le =
    let grows = mul_mono interval (2 ^ failures) (2 ^ more) (pow_mono failures more le) in
    let least = mul_mono interval 1 (2 ^ failures) (grind (arith, lt-pow failures)) in
    rw (next_delay_lem max_backoff interval failures h, next_delay_lem max_backoff interval more h)
      (omega (arith, grows, least), omega (arith, grows), omega arith)
