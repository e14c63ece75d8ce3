-- ===== src/ServerQuery/Commands.antt =====
-- serverquery.py: commands and their responses. A command that the server rejects is an answer, which
-- `raised` turns into the exception.
use teamspeak_prometheus.Base.{
  ℕ, zero, suc, ◌+◌, ◌*◌, ◌/◌, ◌%◌, Bool, true, false, ◌&&◌, ◌==◌, leb, ltb, if◌then◌else◌, Option,
  none, some, List, [], ◌∷◌, ◌++◌, map, Text, codes, starts_with, split, join, drop, length, min,
  max, list_eq, nat_eq,
}
use teamspeak_prometheus.Exec.{Exec, Result, ok, err, server_query_error, unexpected}
use teamspeak_prometheus.Characters.{ℤ, pos, negsuc, Characters, parse_int}
use teamspeak_prometheus.Wire.{line_terminator, escape, decode_record}
use teamspeak_prometheus.Service.State.{ServerRecord}
use teamspeak_prometheus.Service.Reading.{get_field, or_text}
use teamspeak_prometheus.ServerQuery.{
  Socket, Client, read_line, show_ℕ, timed_out, max_session_bytes,
}

-- What `command` comes to: the records, or the id and the message of a `ServerQueryError`.
pub data Answer : Type 0 where
  records : List ServerRecord → Answer
  rejected : ℤ → Text → Answer

abbrev show_ℤ : ℤ → Text
show_ℤ (pos n) = show_ℕ n
show_ℤ (negsuc n) = b'-' ∷ show_ℕ (suc n)

-- `str` of the `ServerQueryError`
abbrev pub failure_text : Text → ℤ → Text → Text
failure_text command id message =
    command ++ codes " failed: error id=" ++ show_ℤ id ++ b' ' ∷ message

-- the value of `command` where it is not `login`
abbrev pub raised : Text → Answer → Result (List ServerRecord)
raised command (records rs) = ok rs
raised command (rejected id message) = err (server_query_error (failure_text command id message))

-- `text.encode('utf-8')`; `none` is the error for a surrogate
unfoldable pub encode_one : ℕ → Option (List ℕ)
encode_one c =
    let low = 0x80 + c % 64 in
    let middle = 0x80 + c / 64 % 64 in
    let high = 0x80 + c / 4096 % 64 in
    if ltb c 0x80
    then some (c ∷ [])
    else if ltb c 0x800
    then some ((0xc0 + c / 64) ∷ low ∷ [])
    else if leb 0xd800 c && leb c 0xdfff
    then none
    else if ltb c 0x10000
    then some ((0xe0 + c / 4096) ∷ middle ∷ low ∷ [])
    else some ((0xf0 + c / 262144) ∷ high ∷ middle ∷ low ∷ [])

abbrev pub both : Option (List ℕ) → Option (List ℕ) → Option (List ℕ)
both (some a) (some b) = some (a ++ b)
both _ _ = none

unfoldable pub encode : Text → Option (List ℕ)
unfolding encode_one
encode [] = some []
encode (c ∷ text) = both (encode_one c) (encode text)

-- a parameter of a command, as it is sent
abbrev pub parameter : Text × Text → Text
parameter (key, value) = key ++ b'=' ∷ escape value

-- the line of a command, without its terminator
unfoldable pub command_line : Text → List (Text × Text) → Text
command_line command params = join b' ' (command ∷ map parameter params)

module _ (C : Characters) where
  -- `_error_id`
  unfoldable pub error_id : ServerRecord → Option ℤ
  error_id error = parse_int C (or_text (get_field error (codes "id")) [])

  -- `(\d+) second` of `_FLOOD_WAIT`
  unfoldable pub seconds_at : Bool → ℕ → Text → Option ℕ
  seconds_at seen value [] = none
  seconds_at seen value (c ∷ text) = elim (C.decimal c) [
    | some d ↦ seconds_at true (value * 10 + d) text
    | none ↦ if seen && starts_with (codes " second") (c ∷ text) then some value else none
  ]

  -- `_FLOOD_WAIT.search`
  unfoldable pub find_seconds : Text → Option ℕ
  unfolding seconds_at starts_with
  find_seconds [] = none
  find_seconds (c ∷ text) =
      let later = find_seconds text in
      if starts_with (codes "wait ") (c ∷ text)
      then elim (seconds_at false 0 (drop 4 text)) [ some n ↦ some n | none ↦ later ]
      else later

  abbrev one_if_none : Option ℕ → ℕ
  one_if_none none = 1
  one_if_none (some n) = n

  -- `_flood_wait`
  unfoldable pub flood_wait : Option Text → ℕ
  unfolding find_seconds
  flood_wait extra_message =
      1000 * min (max (one_if_none (find_seconds (or_text extra_message []))) 1) 10

module _ {W : Type 0} (S : Socket W) (C : Characters) (decode : List ℕ → Text) where
  -- an action on the socket
  abbrev pub on_socket : {A : Type 0} → Exec W A → Exec (Client W) A
  on_socket act c = let (r, w) = act c.world in (r, record c { world = w })

  -- `_send`
  unfoldable pub send : Text → List (Text × Text) → Exec (Client W) (Unit {0})
  unfolding encode command_line
  send command params c = elim (encode (command_line command params)) [
    | none ↦ (err unexpected, c)
    | some bytes ↦ on_socket (S.sendall (bytes ++ line_terminator)) c
  ]

  -- `_read_response` with the records so far; `none` is a lack of fuel
  unfoldable pub response_loop :
      ℕ
      → List ServerRecord
      → Client W
      → Option (Result (List ServerRecord × ServerRecord) × Client W)
  response_loop zero so_far c = none
  response_loop (suc fuel) so_far c = elim (read_line S c) [
    | none ↦ none
    | some (err e, d) ↦ some (err e, d)
    | some (ok bytes, d) ↦ elim (starts_with (codes "error ") (decode bytes)) [
      | true ↦ some (ok (so_far, decode_record (drop 6 (decode bytes))), d)
      | false ↦ elim (starts_with (codes "notify") (decode bytes)) [
        | true ↦ response_loop fuel so_far d
        | false ↦ response_loop fuel (so_far ++ map decode_record (split b'|' (decode bytes))) d
      ]
    ]
  ]

  -- a line takes bytes from the buffer, and what is received into it is bounded
  unfoldable pub read_response :
      Client W → Option (Result (List ServerRecord × ServerRecord) × Client W)
  unfolding response_loop
  read_response c = response_loop (max_session_bytes + length c.buffer + 1) [] c

  abbrev message_of : ServerRecord → Text
  message_of error = or_text (get_field error (codes "msg")) []

  -- `except ValueError` of `_error_id`
  abbrev malformed : Answer
  malformed = rejected (negsuc 0) (codes "malformed response: error line without a numeric id")

  -- the wait before another attempt
  unfoldable pub wait_for : ℕ → Exec (Client W) (Unit {0})
  wait_for wait c =
      let (now, w) = S.clock c.world in
      if leb c.deadline (now + wait)
      then (timed_out S c, record c { world = w })
      else on_socket (S.sleep wait) (record c { world = w })

  -- what a trailer comes to: an answer, or another attempt after a wait
  unfoldable pub judge : Bool → List ServerRecord → ServerRecord → Option Answer
  unfolding error_id
  judge may_retry so_far error = elim (error_id C error) [
    | none ↦ some malformed
    | some (negsuc n) ↦ some (rejected (negsuc n) (message_of error))
    | some (pos n) ↦
        if n == 0
        then some (records so_far)
        else if n == 524 && may_retry
        then none
        else some (rejected (pos n) (message_of error))
  ]

  -- `command` with the attempts left, `FLOOD_RETRIES + 1` of them at first
  unfoldable pub command_loop :
      ℕ → Text → List (Text × Text) → Client W → Option (Result Answer × Client W)
  unfolding send read_response judge flood_wait wait_for
  command_loop zero command params c = some (err unexpected, c)
  command_loop (suc left) command params c = elim (send command params c).0 [
    | err e ↦ some (err e, (send command params c).1)
    | ok _ ↦ elim (read_response (send command params c).1) [
      | none ↦ none
      | some (err e, d) ↦ some (err e, d)
      | some (ok (so_far, error), d) ↦
          let wait = flood_wait C (get_field error (codes "extra_msg")) in
          elim (judge (ltb 0 left) so_far error) [
            | some answer ↦ some (ok answer, d)
            | none ↦ elim (wait_for wait d).0 [
              | err e ↦ some (err e, (wait_for wait d).1)
              | ok _ ↦ command_loop left command params (wait_for wait d).1
            ]
          ]
    ]
  ]

  unfoldable pub run_command :
      Text → List (Text × Text) → Client W → Option (Result Answer × Client W)
  unfolding command_loop
  run_command = command_loop 4
