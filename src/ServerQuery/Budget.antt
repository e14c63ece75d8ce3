-- ===== src/ServerQuery/Budget.antt =====
-- serverquery.py: the deadline of a session after `serverlist`.
use teamspeak_prometheus.Base.{ℕ, ◌+◌, ◌≡◌, ◌≤◌, refl, some, List, [], Text, codes, arith}
use teamspeak_prometheus.Exec.{Result, ok, err}
use teamspeak_prometheus.Characters.{Characters}
use teamspeak_prometheus.Service.State.{ServerRecord}
use teamspeak_prometheus.ServerQuery.{Socket, Client}
use teamspeak_prometheus.ServerQuery.Commands.{Answer, records, rejected}
use teamspeak_prometheus.ServerQuery.Answers.{Usable, run_command-Finishes}
use teamspeak_prometheus.ServerQuery.Session.{
  of_command, command, grow_deadline, listed, serverlist, max_session_timeout,
}

module _ {W : Type 0} (S : Socket W) (C : Characters) (decode : List ℕ → Text) where
  of_command-Usable :
      (name : Text) (c d : Client W) (r : Result Answer)
      → Usable c (r, d)
      → Usable c (of_command S C decode name r, d)
  of_command-Usable name c d (ok (records rs)) h = h
  of_command-Usable name c d (ok (rejected id message)) h = tt
  of_command-Usable name c d (err e) h = tt

  pub command-Usable :
      (name : Text) (params : List (Text × Text)) (c : Client W)
      → (r : Result (List ServerRecord) × Client W) × (command S C decode name params c ≡ some r)
        × Usable c r
  unfolding command
  command-Usable name params c =
      let (r, q, usable) = run_command-Finishes S C decode name params c in
      (
        (of_command S C decode name r.0, r.1),
        rw (command, q) refl,
        of_command-Usable name c r.1 r.0 usable,
      )

  -- the deadline has moved on at most to the end of the longest session
  abbrev pub InBudget : Client W → Result (List ServerRecord) × Client W → Type 0
  InBudget c (ok servers, d) =
      (d.started ≡ c.started)
      × (c.deadline ≤ d.deadline)
      × (d.deadline ≤ c.started + max_session_timeout)
  InBudget c (err e, d) = Unit

  listed-InBudget :
      (c : Client W) (r : Result (List ServerRecord) × Client W)
      → c.deadline ≤ c.started + max_session_timeout
      → Usable c r
      → InBudget c (listed S C decode r)
  unfolding grow_deadline
  listed-InBudget c (ok servers, d) h (more, started, deadline) =
      (started, omega (arith, h, started, deadline), omega (arith, started))
  listed-InBudget c (err e, d) h usable = tt

  -- In a session whose deadline is within 15 minutes of its start, `serverlist` ends, and if it lists the
  -- virtualservers, however many, the deadline has not moved back and is still within the 15 minutes.
  pub serverlist-InBudget :
      (c : Client W)
      → c.deadline ≤ c.started + max_session_timeout
      → (r : Result (List ServerRecord) × Client W) × (serverlist S C decode c ≡ some r)
        × InBudget c r
  unfolding serverlist
  serverlist-InBudget c h =
      let (r, q, usable) = command-Usable (codes "serverlist") [] c in
      (listed S C decode r, rw (serverlist, q) refl, listed-InBudget c r h usable)
