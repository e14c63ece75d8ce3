-- ===== src/ServerQuery/Kept.antt =====
-- serverquery.py: what the commands of a session leave as it is in the world of the socket.
use teamspeak_prometheus.Base.{
  ℕ, zero, suc, ◌+◌, ◌-◌, ◌≡◌, refl, leb, ltb, Option, none, some, List, [], ◌∷◌, ◌++◌, Text, codes,
  starts_with, length, Bool-cases, Option-cases, inl, inr, min, split, map, list_eq, nat_eq,
}
use teamspeak_prometheus.Exec.{Result, ok, err}
use teamspeak_prometheus.Characters.{Characters}
use teamspeak_prometheus.Wire.{decode_record, line_terminator}
use teamspeak_prometheus.Service.State.{ServerRecord}
use teamspeak_prometheus.Service.Reading.{get_field}
use teamspeak_prometheus.ServerQuery.{
  Socket, Client, has_line, accept, received_from, receive, read_line_loop, read_line,
  max_session_bytes, max_line_bytes, read_timeout,
}
use teamspeak_prometheus.ServerQuery.Commands.{
  send, encode, command_line, response_loop, read_response, wait_for, judge, flood_wait,
  command_loop, run_command,
}
use teamspeak_prometheus.ServerQuery.Termination.{result-cases}

-- A property of the world that what a session does on an open socket keeps.
pub record IsKept {W : Type 0} (S : Socket W) (Q : W → Type 0) : Type 0 where
  pub sends : (bytes : List ℕ) (w : W) → Q w → Q (S.sendall bytes w).1
  pub receives : (wait : ℕ) (w : W) → Q w → Q (S.recv wait w).1
  pub looks : (w : W) → Q w → Q (S.clock w).1
  pub sleeps : (wait : ℕ) (w : W) → Q w → Q (S.sleep wait w).1

module _ {W : Type 0} (S : Socket W) (Q : W → Type 0) (K : IsKept S Q) where
  -- the property after a call, if there is an after
  abbrev pub Holds : {A : Type 0} → Option (Result A × Client W) → Type 0
  Holds none = Unit
  Holds (some (r, c)) = Q c.world

  accept-Kept : (chunk : List ℕ) (c : Client W) → Q c.world → Q (accept S chunk c).1.world
  unfolding accept
  accept-Kept [] c h = h
  accept-Kept (b ∷ chunk) c h =
      elim (Bool-cases (ltb max_session_bytes (c.received + length (b ∷ chunk)))) [
        | inl e ↦ rw e h
        | inr e ↦ rw e h
      ]

  received_from-Kept :
      (r : Result (List ℕ) × W) (c : Client W) → Q r.1 → Q (received_from S r c).1.world
  received_from-Kept (ok chunk, w) c h = accept-Kept chunk (record c { world = w }) h
  received_from-Kept (err e, w) c h = h

  receive-Kept : (c : Client W) → Q c.world → Q (receive S c).1.world
  unfolding receive
  receive-Kept c h = elim (Bool-cases (ltb max_line_bytes (length c.buffer))) [
    | inl e ↦ rw e h
    | inr e ↦ elim (Bool-cases (leb c.deadline (S.clock c.world).0)) [
      | inl f ↦ rw (e, f) (K.looks c.world h)
      | inr f ↦
          let (now, w) = S.clock c.world in
          rw (e, f)
            (received_from-Kept (S.recv (min (c.deadline - now) read_timeout) w)
              (record c { world = w })
              (K.receives (min (c.deadline - now) read_timeout) w (K.looks c.world h)))
    ]
  ]

  read_line_loop-Kept : (fuel : ℕ) (c : Client W) → Q c.world → Holds (read_line_loop S fuel c)
  unfolding read_line_loop
  read_line_loop-Kept zero c h = tt
  read_line_loop-Kept (suc fuel) c h = elim (Bool-cases (has_line c.buffer)) [
    | inl e ↦ rw (read_line_loop, e) h
    | inr e ↦ elim (result-cases (receive S c).0) [
      | inr (x, f) ↦ rw (read_line_loop, e, f) (receive-Kept c h)
      | inl f ↦
          rw (read_line_loop, e, f) (read_line_loop-Kept fuel (receive S c).1 (receive-Kept c h))
    ]
  ]

  pub read_line-Kept : (c : Client W) → Q c.world → Holds (read_line S c)
  unfolding read_line
  read_line-Kept = read_line_loop-Kept (max_session_bytes + 2)

  module _ (C : Characters) (decode : List ℕ → Text) where
    response_after_line-Kept :
        (fuel : ℕ) (so_far : List ServerRecord) (c : Client W)
        (line : Option (Result (List ℕ) × Client W))
        → read_line S c ≡ line
        → Holds line
        → ((more : List ServerRecord) (d : Client W)
            → Q d.world
            → Holds (response_loop S C decode fuel more d))
        → Holds (response_loop S C decode (suc fuel) so_far c)
    unfolding response_loop
    response_after_line-Kept fuel so_far c none q h again = rw (response_loop, q) tt
    response_after_line-Kept fuel so_far c (some (err e, d)) q h again = rw (response_loop, q) h
    response_after_line-Kept fuel so_far c (some (ok bytes, d)) q h again =
        elim (Bool-cases (starts_with (codes "error ") (decode bytes))) [
          | inl e ↦ rw (response_loop, q, e) h
          | inr e ↦ elim (Bool-cases (starts_with (codes "notify") (decode bytes))) [
            | inl f ↦ rw (response_loop, q, e, f) (again so_far d h)
            | inr f ↦
                rw (response_loop, q, e, f)
                  (again (so_far ++ map decode_record (split b'|' (decode bytes))) d h)
          ]
        ]

    response_loop-Kept :
        (fuel : ℕ) (so_far : List ServerRecord) (c : Client W)
        → Q c.world
        → Holds (response_loop S C decode fuel so_far c)
    unfolding response_loop
    response_loop-Kept zero so_far c h = tt
    response_loop-Kept (suc fuel) so_far c h =
        response_after_line-Kept fuel so_far c (read_line S c) refl (read_line-Kept c h)
          (λ more d k. response_loop-Kept fuel more d k)

    read_response-Kept : (c : Client W) → Q c.world → Holds (read_response S C decode c)
    unfolding read_response
    read_response-Kept c h = response_loop-Kept (max_session_bytes + length c.buffer + 1) [] c h

    pub send-Kept :
        (command : Text) (params : List (Text × Text)) (c : Client W)
        → Q c.world
        → Q (send S C decode command params c).1.world
    unfolding send
    send-Kept command params c h = elim (Option-cases (encode (command_line command params))) [
      | inl e ↦ rw (send, e) h
      | inr (bytes, e) ↦ rw (send, e) (K.sends (bytes ++ line_terminator) c.world h)
    ]

    wait_for-Kept : (wait : ℕ) (c : Client W) → Q c.world → Q (wait_for S C decode wait c).1.world
    unfolding wait_for
    wait_for-Kept wait c h =
        let (now, w) = S.clock c.world in
        elim (Bool-cases (leb c.deadline (now + wait))) [
          | inl e ↦ rw e (K.looks c.world h)
          | inr e ↦ rw e (K.sleeps wait w (K.looks c.world h))
        ]

    command_after_response-Kept :
        (left : ℕ) (command : Text) (params : List (Text × Text)) (c : Client W)
        (o : Option (Result (List ServerRecord × ServerRecord) × Client W))
        → (send S C decode command params c).0 ≡ ok tt
        → read_response S C decode (send S C decode command params c).1 ≡ o
        → Holds o
        → ((d : Client W) → Q d.world → Holds (command_loop S C decode left command params d))
        → Holds (command_loop S C decode (suc left) command params c)
    unfolding command_loop
    command_after_response-Kept left command params c none s q h again = rw (command_loop, s, q) tt
    command_after_response-Kept left command params c (some (err e, d)) s q h again =
        rw (command_loop, s, q) h
    command_after_response-Kept left command params c (some (ok (so_far, error), d)) s q h again =
        let wait = flood_wait C (get_field error (codes "extra_msg")) in
        elim (Option-cases (judge S C decode (ltb 0 left) so_far error)) [
          | inr (answer, e) ↦ rw (command_loop, s, q, e) h
          | inl e ↦ elim (result-cases (wait_for S C decode wait d).0) [
            | inr (x, f) ↦ rw (command_loop, s, q, e, f) (wait_for-Kept wait d h)
            | inl f ↦
                rw (command_loop, s, q, e, f)
                  (again (wait_for S C decode wait d).1 (wait_for-Kept wait d h))
          ]
        ]

    command_loop-Kept :
        (left : ℕ) (command : Text) (params : List (Text × Text)) (c : Client W)
        → Q c.world
        → Holds (command_loop S C decode left command params c)
    unfolding command_loop
    command_loop-Kept zero command params c h = h
    command_loop-Kept (suc left) command params c h =
        let d : Client W = (send S C decode command params c).1 in
        let sent = send-Kept command params c h in
        elim (result-cases (send S C decode command params c).0) [
          | inr (x, f) ↦ rw (command_loop, f) sent
          | inl f ↦
              command_after_response-Kept left command params c (read_response S C decode d) f refl
                (read_response-Kept d sent) (λ e k. command_loop-Kept left command params e k)
        ]

    pub run_command-Kept :
        (command : Text) (params : List (Text × Text)) (c : Client W)
        → Q c.world
        → Holds (run_command S C decode command params c)
    unfolding run_command
    run_command-Kept = command_loop-Kept 4
