-- ===== src/ServerQuery/Response.antt =====
-- serverquery.py: what `_read_response` reads of the lines of a response.
use teamspeak_prometheus.Base.{
  ℕ, zero, suc, ◌+◌, ◌≡◌, ◌≤◌, ◌<◌, refl, Bool, true, false, Option, some, List, [], ◌∷◌, ◌++◌,
  Text, codes, starts_with, split, drop, map, length, length-append, concat, arith, All, Bool-cases,
  inl, inr, ap, sym, ◌∙◌, subst, append_assoc, append-nil, list_eq, nat_eq,
}
use teamspeak_prometheus.Exec.{Result, ok}
use teamspeak_prometheus.Characters.{Characters}
use teamspeak_prometheus.Wire.{decode_record, line_terminator}
use teamspeak_prometheus.Service.State.{ServerRecord}
use teamspeak_prometheus.ServerQuery.{
  Client, partition_line, has_line, read_line, max_session_bytes,
}
use teamspeak_prometheus.ServerQuery.Commands.{response_loop, read_response}
use teamspeak_prometheus.ServerQuery.Stream.{stream, Streams, read_line-Streams}

-- the bytes of these lines, and then those that follow
abbrev pub transmitted : List (List ℕ) → List ℕ → List ℕ
transmitted [] rest = rest
transmitted (line ∷ lines) rest = line ++ (line_terminator ++ transmitted lines rest)

partition_line-terminated :
    (line rest : List ℕ)
    → has_line line ≡ false
    → partition_line (line ++ (line_terminator ++ rest)) ≡ (line, rest)
unfolding partition_line has_line
partition_line-terminated [] rest h = refl
partition_line-terminated (c ∷ []) rest h = ground arith
partition_line-terminated (c ∷ d ∷ line) rest h =
    ground (arith, h, partition_line-terminated (d ∷ line) rest)

has_line-terminated : (line rest : List ℕ) → has_line (line ++ (line_terminator ++ rest)) ≡ true
unfolding has_line
has_line-terminated [] rest = refl
has_line-terminated (c ∷ []) rest = ground arith
has_line-terminated (c ∷ d ∷ line) rest = ground (arith, has_line-terminated (d ∷ line) rest)

length-transmitted :
    (lines : List (List ℕ)) (rest : List ℕ) → length lines ≤ length (transmitted lines rest)
length-transmitted [] rest = omega arith
length-transmitted (line ∷ lines) rest = omega (
  arith,
  length-append line (line_terminator ++ transmitted lines rest),
  length-transmitted lines rest,
)

-- the line is read, and what follows it is still to be read
read_line-terminated :
    (now : ℕ) (line more : List ℕ) (c : Client (List (List ℕ)))
    → has_line line ≡ false
    → Streams now (line ++ (line_terminator ++ more)) c
    → (d : Client (List (List ℕ))) × (read_line (stream now) c ≡ some (ok line, d))
      × Streams now more d
read_line-terminated now line more c h s =
    let e = partition_line-terminated line more h in
    let (d, q, t) =
      read_line-Streams now (line ++ (line_terminator ++ more)) c s
        (has_line-terminated line more) in
    (d, q ∙ ap (λ p. some (ok p.0, d)) e, subst (λ p. Streams now p d) (ap (λ p. p.1) e) t)

module _ (decode : List ℕ → Text) where
  -- the records of a line: a notification has none
  abbrev pub records_of_line : Bool → Text → List ServerRecord
  records_of_line true line = []
  records_of_line false line = map decode_record (split b'|' line)

  abbrev pub records_of : List (List ℕ) → List ServerRecord
  records_of [] = []
  records_of (line ∷ lines) =
      records_of_line (starts_with (codes "notify") (decode line)) (decode line) ++ records_of lines

  -- a line before the last one
  abbrev pub Before : List ℕ → Type 0
  Before line = (has_line line ≡ false) × (starts_with (codes "error ") (decode line) ≡ false)

  -- the line that ends a response
  abbrev pub Trailer : List ℕ → Type 0
  Trailer line = (has_line line ≡ false) × (starts_with (codes "error ") (decode line) ≡ true)

  module _ (now : ℕ) (last rest : List ℕ) where
    -- the response is read, and what follows it is still to be read
    abbrev pub Answers :
        List ServerRecord
        → Option (Result (List ServerRecord × ServerRecord) × Client (List (List ℕ)))
        → Type 0
    Answers records o =
        (d : Client (List (List ℕ))) × (o
          ≡ some (ok (records, decode_record (drop 6 (decode last))), d))
        × Streams now rest d

    module _ (C : Characters) where
      response_loop-Streams :
          (fuel : ℕ) (lines : List (List ℕ)) (so_far : List ServerRecord)
          (c : Client (List (List ℕ)))
          → length lines < fuel
          → All Before lines
          → Trailer last
          → Streams now (transmitted lines (last ++ (line_terminator ++ rest))) c
          → Answers (so_far ++ records_of lines) (response_loop (stream now) C decode fuel so_far c)
      unfolding response_loop
      response_loop-Streams zero lines so_far c h before trailer s = absurd (omega arith)
      response_loop-Streams (suc fuel) [] so_far c h before (whole, is_error) s =
          let (d, q, t) = read_line-terminated now last rest c whole s in
          rw (response_loop, q, is_error)
            (d, ap (λ r. some (ok (r, _), d)) (sym (append-nil so_far)), t)
      response_loop-Streams (suc fuel) (line ∷ lines) so_far c h ((whole, is_record), before)
            trailer s =
          let more = transmitted lines (last ++ (line_terminator ++ rest)) in
          let (d, q, t) = read_line-terminated now line more c whole s in
          elim (Bool-cases (starts_with (codes "notify") (decode line))) [
            | inl n ↦
                rw (response_loop, q, is_record, n)
                  (response_loop-Streams fuel lines so_far d (omega arith) before trailer t)
            | inr n ↦
                let own = map decode_record (split b'|' (decode line)) in
                rw
                  (response_loop, q, is_record, n, sym (append_assoc so_far own (records_of lines)))
                  (response_loop-Streams fuel lines (so_far ++ own) d (omega arith) before trailer
                    t)
          ]

      -- A response is read as it was sent, however its bytes come: of lines that are no trailers and
      -- then a trailer, before the deadline, within the limit of the session, no more bytes in all than a
      -- line may have and in chunks of any sizes but 0, the client returns the records of the lines in
      -- their order, those of notifications left out, and the record of the trailer, and what comes after
      -- the trailer is left to read.
      pub read_response-Answers :
          (lines : List (List ℕ)) (c : Client (List (List ℕ)))
          → All Before lines
          → Trailer last
          → Streams now (transmitted lines (last ++ (line_terminator ++ rest))) c
          → Answers (records_of lines) (read_response (stream now) C decode c)
      unfolding read_response
      read_response-Answers lines c before trailer s =
          let bytes = transmitted lines (last ++ (line_terminator ++ rest)) in
          let total : length bytes ≡ length c.buffer + length (concat c.world) =
            ap length (sym s.joined) ∙ length-append c.buffer (concat c.world) in
          response_loop-Streams (max_session_bytes + length c.buffer + 1) lines [] c
            (omega (
              arith,
              total,
              s.within,
              length-transmitted lines (last ++ (line_terminator ++ rest)),
            ))
            before trailer s
