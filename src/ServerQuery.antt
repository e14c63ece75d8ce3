-- ===== src/ServerQuery.antt =====
-- teamspeak_prometheus/serverquery.py: `ServerQueryClient` and its lines. Times are milliseconds. The
-- socket, the clock, `sleep` and the decoding of UTF-8 with replacement characters are parameters.
pub mod Commands
pub mod Termination
pub mod Answers
pub mod Session
pub mod Budget
pub mod Connection
pub mod Refines
pub mod Stream
pub mod Response
pub mod Sending
pub mod Kept
pub mod Sockets
pub mod Polled
use teamspeak_prometheus.Base.{
  ℕ, zero, suc, ◌+◌, ◌-◌, ◌*◌, ◌/◌, ◌%◌, ◌≡◌, refl, Bool, true, false, ◌&&◌, ◌==◌, leb, ltb,
  if◌then◌else◌, Option, none, some, List, [], ◌∷◌, ◌++◌, Text, codes, is_infix, length, min,
}
use teamspeak_prometheus.Exec.{Exec, Result, ok, err, os_error, connection, timeout}
use teamspeak_prometheus.Wire.{line_terminator}

abbrev pub session_timeout : ℕ
session_timeout = 60000

-- `SERVERQUERY_TIMEOUT_IN_SECONDS`
abbrev pub read_timeout : ℕ
read_timeout = 10000

abbrev pub max_line_bytes : ℕ
max_line_bytes = 1048576

abbrev pub max_session_bytes : ℕ
max_session_bytes = 67108864

-- `socket.create_connection`, a socket, `recv` with the timeout that is set before it, the monotonic clock and `sleep`.
pub record Socket (W : Type 0) : Type 0 where
  pub dial : Text → ℕ → Exec W (Unit {0})
  pub sendall : List ℕ → Exec W (Unit {0})
  pub recv : ℕ → Exec W (List ℕ)
  pub close : Exec W (Unit {0})
  pub clock : W → ℕ × W
  pub sleep : ℕ → Exec W (Unit {0})

-- `ServerQueryClient`
pub record Client (W : Type 0) : Type 0 where
  pub world : W
  pub buffer : List ℕ
  pub received : ℕ
  pub started : ℕ
  pub deadline : ℕ

-- `str(n)`, a digit for each unit of fuel
unfoldable pub show_with : ℕ → ℕ → Text
show_with zero n = []
show_with (suc fuel) n =
    let digit = b'0' + n % 10 in
    let before = show_with fuel (n / 10) in if ltb n 10 then digit ∷ [] else before ++ digit ∷ []

abbrev pub show_ℕ : ℕ → Text
show_ℕ n = show_with (suc n) n

-- `self._buffer.partition(LINE_TERMINATOR)` without the separator
unfoldable pub partition_line : List ℕ → List ℕ × List ℕ
partition_line [] = ([], [])
partition_line (c ∷ []) = (c ∷ [], [])
partition_line (c ∷ d ∷ rest) =
    let (line, after) = partition_line (d ∷ rest) in
    if c == 10 && d == 13 then ([], rest) else (c ∷ line, after)

-- `LINE_TERMINATOR in self._buffer`
unfoldable pub has_line : List ℕ → Bool
has_line [] = false
has_line (c ∷ []) = false
has_line (c ∷ d ∷ rest) =
    let later = has_line (d ∷ rest) in if c == 10 && d == 13 then true else later

module _ {W : Type 0} (S : Socket W) where
  -- `_timed_out`, where `:g` prints whole seconds
  abbrev pub timed_out : {A : Type 0} → Client W → Result A
  timed_out c = err (
      os_error timeout (
        codes "ServerQuery session did not finish within "
        ++ show_ℕ ((c.deadline - c.started) / 1000)
        ++ codes "s"))

  -- what `_read_line` does with a chunk
  unfoldable pub accept : List ℕ → Client W → Result (Unit {0}) × Client W
  accept [] c = (err (os_error connection (codes "ServerQuery closed the connection")), c)
  accept (b ∷ chunk) c =
      let received = c.received + length (b ∷ chunk) in
      if ltb max_session_bytes received
      then (
        err (
            os_error connection (codes "ServerQuery sent more than 67108864 bytes in one session")),
        record c { received = received },
      )
      else (ok tt, record c { received = received; buffer = c.buffer ++ b ∷ chunk })

  abbrev received_from : Result (List ℕ) × W → Client W → Result (Unit {0}) × Client W
  received_from (ok chunk, w) c = accept chunk (record c { world = w })
  received_from (err e, w) c = (err e, record c { world = w })

  -- one round of the loop of `_read_line`
  unfoldable pub receive : Exec (Client W) (Unit {0})
  unfolding accept
  receive c =
      let (now, w) = S.clock c.world in
      if ltb max_line_bytes (length c.buffer)
      then (
        err (os_error connection (codes "ServerQuery sent a line longer than 1048576 bytes")),
        c,
      )
      else if leb c.deadline now
      then (timed_out c, record c { world = w })
      else received_from (S.recv (min (c.deadline - now) read_timeout) w) (record c { world = w })

  -- `_read_line` before the decoding; `none` is a lack of fuel
  unfoldable pub read_line_loop : ℕ → Client W → Option (Result (List ℕ) × Client W)
  unfolding has_line partition_line receive
  read_line_loop zero c = none
  read_line_loop (suc fuel) c = elim (has_line c.buffer) [
    | true ↦
        some (ok (partition_line c.buffer).0, record c { buffer = (partition_line c.buffer).1 })
    | false ↦ elim (receive c).0 [
      | err e ↦ some (err e, (receive c).1)
      | ok _ ↦ read_line_loop fuel (receive c).1
    ]
  ]

  -- every round receives a byte, and no more than `max_session_bytes` are received
  unfoldable pub read_line : Client W → Option (Result (List ℕ) × Client W)
  unfolding read_line_loop
  read_line = read_line_loop (max_session_bytes + 2)
