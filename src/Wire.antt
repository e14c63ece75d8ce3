-- ===== src/Wire.antt =====
-- teamspeak_prometheus/wire.py: escaping, unescaping and records of the ServerQuery format.
pub mod RoundTrip
pub mod Framing
pub mod Records
use mathlib.Core.List.{foldl}
use teamspeak_prometheus.Base.{
  ℕ, Text, codes, Bool, true, false, Option, none, some, List, [], ◌∷◌, ◌==◌, if◌then◌else◌,
  is_empty, ◌≡◌, refl, replace, split, partition, strip, list_eq, nat_eq,
}
use teamspeak_prometheus.Base.Dict
use teamspeak_prometheus.Base.Dict.{Dict}

abbrev pub backslash : ℕ
backslash = b'\\'

-- `LINE_TERMINATOR`, the bytes `\n\r`
abbrev pub line_terminator : Text
line_terminator = 10 ∷ 13 ∷ []

-- `_ESCAPES`: a raw character, and the letter that stands behind the backslash in its escaped form
abbrev pub escapes : List (ℕ × ℕ)
escapes =
    (backslash, backslash)
    ∷ (b'/', b'/')
    ∷ (b' ', b's')
    ∷ (b'|', b'p')
    ∷ (7, b'a')
    ∷ (8, b'b')
    ∷ (12, b'f')
    ∷ (10, b'n')
    ∷ (13, b'r')
    ∷ (9, b't')
    ∷ (11, b'v')
    ∷ []

-- one `replace` for each pair of the table, in its order
unfoldable pub escape_with : List (ℕ × ℕ) → Text → Text
escape_with [] text = text
escape_with ((raw, letter) ∷ table) text =
    escape_with table (replace raw (backslash ∷ letter ∷ []) text)

unfoldable pub escape : Text → Text
unfolding escape_with replace
escape = escape_with escapes

-- `_UNESCAPES.get(letter)`
unfoldable pub unescape_letter : List (ℕ × ℕ) → ℕ → Option ℕ
unescape_letter [] c = none
unescape_letter ((raw, letter) ∷ table) c =
    if letter == c then some raw else unescape_letter table c

unfoldable pub unescape : Text → Text
unfolding unescape_letter
unescape [] = []
unescape (c ∷ []) = c ∷ []
unescape (c ∷ d ∷ text) =
    let copied = c ∷ unescape (d ∷ text) in
    let replaced = unescape text in
    if c == backslash
    then elim (unescape_letter escapes d) [ none ↦ copied | some raw ↦ raw ∷ replaced ]
    else copied

-- a flag with no `=` has no value
abbrev value_of : Text × Bool × Text → Option Text
value_of (key, true, value) = some (unescape value)
value_of (key, false, value) = none

-- one round of the loop of `decode_record`
unfoldable pub decode_chunk : Dict Text (Option Text) → Text → Dict Text (Option Text)
unfolding partition Dict.put
decode_chunk record_so_far chunk =
    if is_empty chunk
    then record_so_far
    else (let parts = partition b'=' chunk in Dict.put record_so_far parts.0 (value_of parts))

unfoldable pub decode_record : Text → Dict Text (Option Text)
unfolding decode_chunk split strip list_eq nat_eq unescape
decode_record payload = foldl decode_chunk Dict.empty (split b' ' (strip payload))

escape_test : escape (codes "a b|c\\/") ≡ codes "a\\sb\\pc\\\\\\/"
unfolding escape
escape_test = refl

unescape_test : unescape (codes "\\\\s\\q\\") ≡ codes "\\s\\q\\"
unfolding unescape
unescape_test = refl

decode_record_test :
    decode_record (codes " id=0  msg=o\\sk flag= x ")
    ≡ (codes "id", some (codes "0"))
      ∷ (codes "msg", some (codes "o k"))
      ∷ (codes "flag", some [])
      ∷ (codes "x", none)
      ∷ []
unfolding decode_record
decode_record_test = refl
