-- ===== src/ServerQuery/Answers.antt =====
-- serverquery.py: what `command` comes to.
use teamspeak_prometheus.Base.{
  arith, ℕ, zero, suc, ◌+◌, ◌≡◌, refl, ltb, leb, Option, some, List, Text, codes, Bool-cases,
  Option-cases, inl, inr, list_eq, nat_eq,
}
use teamspeak_prometheus.Exec.{Result, ok, err, unexpected}
use teamspeak_prometheus.Characters.{Characters}
use teamspeak_prometheus.Service.State.{ServerRecord}
use teamspeak_prometheus.Service.Reading.{get_field}
use teamspeak_prometheus.ServerQuery.{Socket, Client}
use teamspeak_prometheus.ServerQuery.Commands.{
  Answer, send, encode, command_line, read_response, judge, wait_for, flood_wait, command_loop,
  run_command,
}
use teamspeak_prometheus.ServerQuery.Termination.{
  Shrunk, Carries, Carries-trans, result-cases, read_response_lem,
}

-- the session can go on, with the same start and deadline, if nothing was raised
abbrev pub Usable : {W : Type 0} → Client W → {A : Type 0} → Result A × Client W → Type 0
Usable c (ok answer, d) = Carries c d
Usable c (err e, d) = Unit

Usable-trans :
    {W : Type 0} {A : Type 0} (c d : Client W) (r : Result A × Client W)
    → Carries c d
    → Usable d r
    → Usable c r
Usable-trans c d (ok answer, e) times same = Carries-trans c d e times same
Usable-trans c d (err x, e) times h = tt

module _ {W : Type 0} (S : Socket W) (C : Characters) (decode : List ℕ → Text) where
  Carries-send :
      (command : Text) (params : List (Text × Text)) (c : Client W)
      → Carries c (send S C decode command params c).1
  unfolding send
  Carries-send command params c = elim (Option-cases (encode (command_line command params))) [
    | inl e ↦ rw (send, e) (omega arith, refl, refl)
    | inr (bytes, e) ↦ rw (send, e) (omega arith, refl, refl)
  ]

  Carries-wait_for : (wait : ℕ) (c : Client W) → Carries c (wait_for S C decode wait c).1
  unfolding wait_for
  Carries-wait_for wait c = elim (Bool-cases (leb c.deadline ((S.clock c.world).0 + wait))) [
    | inl e ↦ rw e (omega arith, refl, refl)
    | inr e ↦ rw e (omega arith, refl, refl)
  ]

  -- the command ends, and the session can go on if it did not raise
  abbrev pub Finishes : Client W → Option (Result Answer × Client W) → Type 0
  Finishes c o = (r : Result Answer × Client W) × (o ≡ some r) × Usable c r

  -- one attempt, given what was read and that the next attempt ends
  attempt-Finishes :
      (left : ℕ) (command : Text) (params : List (Text × Text)) (c : Client W)
      (read : Result (List ServerRecord × ServerRecord) × Client W)
      → ((d : Client W) → Finishes d (command_loop S C decode left command params d))
      → (send S C decode command params c).0 ≡ ok tt
      → read_response S C decode (send S C decode command params c).1 ≡ some read
      → Usable c read
      → Finishes c (command_loop S C decode (suc left) command params c)
  unfolding command_loop
  attempt-Finishes left command params c (err e, d) again sent q usable =
      ((err e, d), rw (command_loop, sent, q) refl, tt)
  attempt-Finishes left command params c (ok (so_far, error), d) again sent q times =
      let wait = flood_wait C (get_field error (codes "extra_msg")) in
      elim (Option-cases (judge S C decode (ltb 0 left) so_far error)) [
        | inr (answer, j) ↦ ((ok answer, d), rw (command_loop, sent, q, j) refl, times)
        | inl j ↦ elim (result-cases (wait_for S C decode wait d).0) [
          | inr (e, w) ↦
              ((err e, (wait_for S C decode wait d).1), rw (command_loop, sent, q, j, w) refl, tt)
          | inl w ↦
              let waited = Carries-wait_for wait d in
              let next = (wait_for S C decode wait d).1 in
              let (r, p, usable) = again next in
              (
                r,
                rw (command_loop, sent, q, j, w) p,
                Usable-trans c d r times (Usable-trans d next r waited usable),
              )
        ]
      ]

  Usable-of_Shrunk :
      {A : Type 0} (c d : Client W) (r : Result A × Client W)
      → Carries c d
      → Shrunk 0 d r
      → Usable c r
  Usable-of_Shrunk c d (ok a, e) times (less, same) = Carries-trans c d e times same
  Usable-of_Shrunk c d (err x, e) times h = tt

  command_loop_lem :
      (attempts : ℕ) (command : Text) (params : List (Text × Text)) (c : Client W)
      → Finishes c (command_loop S C decode attempts command params c)
  unfolding command_loop
  command_loop_lem zero command params c = ((err unexpected, c), refl, tt)
  command_loop_lem (suc left) command params c =
      let sent = send S C decode command params c in
      let kept = Carries-send command params c in
      elim (result-cases sent.0) [
        | inr (e, f) ↦ ((err e, sent.1), rw (command_loop, f) refl, tt)
        | inl f ↦
            let (read, q, shrunk) = read_response_lem S C decode sent.1 in
            attempt-Finishes left command params c read
              (λ d. command_loop_lem left command params d) f q
              (Usable-of_Shrunk c sent.1 read kept shrunk)
      ]

  -- Whatever the server sends and however the socket fails, a command ends: it returns the records or
  -- the rejection, or it raises. If it does not raise, the session has received no more bytes than before
  -- or than it may, and its start and deadline have not moved.
  pub run_command-Finishes :
      (command : Text) (params : List (Text × Text)) (c : Client W)
      → Finishes c (run_command S C decode command params c)
  unfolding run_command
  run_command-Finishes command params c = command_loop_lem 4 command params c
