-- ===== src/Loop/Rounds.antt =====
-- loop.py: `poll_forever` over the clock readings and results of its rounds.
use teamspeak_prometheus.Base.{
  ℕ, zero, suc, ◌+◌, ◌-◌, ◌≤◌, ◌<◌, ◌≡◌, refl, Bool, true, false, Option, none, some, List, [], ◌∷◌,
  ◌==◌, if◌then◌else◌, max, arith, All, length, Bool-cases, inl, inr,
}
use teamspeak_prometheus.Service.State.{PollResult}
use teamspeak_prometheus.Loop.{next_delay}
use teamspeak_prometheus.Loop.Delay.{next_delay_bounds}

-- One round: `clock()` before the poll, what `service.poll()` returns, `clock()` after it.
pub record Round : Type 0 where
  pub started : ℕ
  pub result : PollResult
  pub ended : ℕ

-- What the loop did: the polls, the waits given to `sleep`, and whether it returned.
pub record Trace : Type 0 where
  pub polls : ℕ
  pub sleeps : List ℕ
  pub returned : Bool

-- `not (remaining is None or remaining > 0)`
abbrev is_done : Option ℕ → Bool
is_done none = false
is_done (some n) = n == 0

abbrev count_down : Option ℕ → Option ℕ
count_down none = none
count_down (some n) = some (n - 1)

unfoldable pub count_failure : ℕ → PollResult → ℕ
count_failure failures PollResult.failed = failures + 1
count_failure failures PollResult.ok = 0
count_failure failures PollResult.partial = 0

-- the trace of one more poll, without and with a wait behind it
abbrev last_poll : Trace
last_poll = record { polls = 1; sleeps = []; returned = true }

abbrev and_then : ℕ → Trace → Trace
and_then wait t = record t { polls = t.polls + 1; sleeps = wait ∷ t.sleeps }

module _ (max_backoff interval : ℕ) where
  -- the wait of a round; `-` on the numbers stops at 0, as `max(…, 0)` does
  abbrev pub wait_of : ℕ → Round → ℕ
  wait_of failures r = next_delay max_backoff interval failures - (r.ended - r.started)

  -- `poll_forever` with `remaining` and `failures`, for as many rounds as are listed
  unfoldable pub poll_rounds : Option ℕ → ℕ → List Round → Trace
  unfolding count_failure
  poll_rounds remaining failures [] = record {
    polls = 0;
    sleeps = [];
    returned = is_done remaining;
  }
  poll_rounds remaining failures (r ∷ rounds) =
      let failures' = count_failure failures r.result in
      let left = count_down remaining in
      let rest = and_then (wait_of failures' r) (poll_rounds left failures' rounds) in
      if is_done remaining
      then record { polls = 0; sleeps = []; returned = true }
      else if is_done left
      then last_poll
      else rest

  unfoldable pub poll_forever : Option ℕ → List Round → Trace
  unfolding poll_rounds
  poll_forever iterations rounds = poll_rounds iterations 0 rounds

  poll_rounds-counted :
      (n failures : ℕ) (rounds : List Round)
      → suc n ≤ length rounds
      → let t = poll_rounds (some (suc n)) failures rounds in
        (t.polls ≡ suc n) × (length t.sleeps ≡ n) × (t.returned ≡ true)
  unfolding poll_rounds
  poll_rounds-counted n failures [] h = absurd (omega arith)
  poll_rounds-counted zero failures (r ∷ rounds) h = ground arith
  poll_rounds-counted (suc n) failures (r ∷ rounds) h =
      ground (arith, poll_rounds-counted n (count_failure failures r.result) rounds)

  poll_rounds-endless :
      (failures : ℕ) (rounds : List Round)
      → let t = poll_rounds none failures rounds in
        (t.polls ≡ length rounds) × (length t.sleeps ≡ length rounds) × (t.returned ≡ false)
  unfolding poll_rounds
  poll_rounds-endless failures [] = (refl, refl, refl)
  poll_rounds-endless failures (r ∷ rounds) =
      ground (arith, poll_rounds-endless (count_failure failures r.result) rounds)

  -- With `n` iterations the loop makes `n` polls with `n - 1` waits between them and returns, and
  -- without a limit it polls and waits once for each of the rounds listed and has not returned after
  -- them, whatever the results of the polls.
  pub poll_forever_lem :
      (n : ℕ) (rounds : List Round)
      → n ≤ length rounds
      → let t = poll_forever (some n) rounds in
        let u = poll_forever none rounds in
        (t.polls ≡ n)
        × (length t.sleeps ≡ n - 1)
        × (t.returned ≡ true)
        × (u.polls ≡ length rounds)
        × (length u.sleeps ≡ length rounds)
        × (u.returned ≡ false)
  unfolding poll_forever
  poll_forever_lem zero [] h = (refl, refl, refl, refl, refl, refl)
  poll_forever_lem zero (r ∷ rounds) h =
      let (p, q, t) = poll_rounds-endless 0 (r ∷ rounds) in (refl, refl, refl, p, q, t)
  poll_forever_lem (suc n) rounds h =
      let (a, b, c) = poll_rounds-counted n 0 rounds h in
      let (p, q, t) = poll_rounds-endless 0 rounds in (a, omega (arith, b), c, p, q, t)

  one_round :
      (remaining : Option ℕ) (failures : ℕ) (r : Round) (rounds : List Round)
      → wait_of (count_failure failures r.result) r ≤ max interval max_backoff
      → All
          (λ wait. wait ≤ max interval max_backoff)
          (poll_rounds (count_down remaining) (count_failure failures r.result) rounds).sleeps
      → All
          (λ wait. wait ≤ max interval max_backoff)
          (poll_rounds remaining failures (r ∷ rounds)).sleeps
  one_round remaining failures r rounds h rest = elim (Bool-cases (is_done remaining)) [
    | inl e ↦ unfold poll_rounds in rw e tt
    | inr e ↦ elim (Bool-cases (is_done (count_down remaining))) [
      | inl q ↦ unfold poll_rounds in rw (e, q) tt
      | inr q ↦ unfold poll_rounds in rw (e, q) (h, rest)
    ]
  ]

  poll_rounds-bounded :
      (remaining : Option ℕ) (failures : ℕ) (rounds : List Round)
      → 0 < interval
      → All (λ wait. wait ≤ max interval max_backoff) (poll_rounds remaining failures rounds).sleeps
  poll_rounds-bounded remaining failures [] h = unfold poll_rounds in tt
  poll_rounds-bounded remaining failures (r ∷ rounds) h =
      let failures' = count_failure failures r.result in
      let (_, _, below) =
        next_delay_bounds max_backoff interval failures' failures' h (omega arith) in
      let rest = poll_rounds-bounded (count_down remaining) failures' rounds h in
      one_round remaining failures r rounds (omega (arith, below)) rest

  -- For a positive interval no wait is longer than the larger of the interval and the cap, however many
  -- polls fail.
  pub poll_forever-bounded :
      (iterations : Option ℕ) (rounds : List Round)
      → 0 < interval
      → All (λ wait. wait ≤ max interval max_backoff) (poll_forever iterations rounds).sleeps
  unfolding poll_forever
  poll_forever-bounded iterations rounds h = poll_rounds-bounded iterations 0 rounds h
