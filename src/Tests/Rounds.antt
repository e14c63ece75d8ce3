-- ===== src/Tests/Rounds.antt =====
-- The poll loop at concrete rounds.
use teamspeak_prometheus.Base.{◌≡◌, refl, true, false, arith, List, [], ◌∷◌, some, none, length}
use teamspeak_prometheus.Service.State.{PollResult}
use teamspeak_prometheus.Loop.{next_delay}
use teamspeak_prometheus.Loop.Rounds.{Round, poll_forever, poll_forever_lem}

abbrev failing : Round
failing = record { started = 0; result = PollResult.failed; ended = 2 }

abbrev quick : Round
quick = record { started = 12; result = PollResult.ok; ended = 13 }

abbrev rounds : List Round
rounds = failing ∷ quick ∷ failing ∷ []

poll_forever_lem_example :
    let t = poll_forever 60 5 (some 2) rounds in
    let u = poll_forever 60 5 none rounds in
    (t.polls ≡ 2)
    × (length t.sleeps ≡ 1)
    × (t.returned ≡ true)
    × (u.polls ≡ 3)
    × (length u.sleeps ≡ 3)
    × (u.returned ≡ false)
poll_forever_lem_example = poll_forever_lem 60 5 2 rounds (omega arith)

poll_forever_test : (poll_forever 60 5 none rounds).sleeps ≡ 8 ∷ 4 ∷ 8 ∷ []
unfolding poll_forever next_delay
poll_forever_test = refl
