-- ===== src/Redaction.antt =====
-- teamspeak_prometheus/redaction.py: censoring secrets and writing out control characters. The
-- interpreter's character database (`str.isprintable`) is a parameter.
pub mod Marker
pub mod Secrets
pub mod Substitute
pub mod Hides
pub mod Longest
pub mod Order
pub mod Control
pub mod Lines
pub mod Filter
use teamspeak_prometheus.Base.{
  ℕ, zero, suc, ◌+◌, ◌-◌, ◌/◌, ◌%◌, ◌≡◌, refl, Bool, true, false, not, ◌&&◌, ◌||◌, ◌==◌, leb, ltb,
  if◌then◌else◌, Option, none, some, List, [], ◌∷◌, ◌++◌, map, Text, codes, is_empty, starts_with,
  is_infix, length, replicate, any, contains, list_eq, nat_eq,
}
use mathlib.Core.Option

-- `REDACTED`
abbrev pub redacted : Text
redacted = codes "*censored*"

-- `{s for s in secrets if s}`; the order of a set is not specified, and is that of the list here
unfoldable pub distinct : List Text → List Text
unfolding list_eq nat_eq
distinct [] = []
distinct (s ∷ secrets) =
    let rest = distinct secrets in if is_empty s || contains secrets s then rest else s ∷ rest

unfoldable pub insert_by_length : Text → List Text → List Text
insert_by_length s [] = s ∷ []
insert_by_length s (t ∷ sorted) =
    if ltb (length s) (length t) then t ∷ insert_by_length s sorted else s ∷ t ∷ sorted

-- `sorted(…, key=len, reverse=True)`
unfoldable pub sort_by_length : List Text → List Text
unfolding insert_by_length
sort_by_length [] = []
sort_by_length (s ∷ secrets) = insert_by_length s (sort_by_length secrets)

unfoldable pub secrets_for_redaction : List Text → List Text
unfolding distinct sort_by_length
secrets_for_redaction secrets = sort_by_length (distinct secrets)

-- `_secrets_pattern`: the alternatives are tried in order, and the first that matches is taken
unfoldable pub match_length : List Text → Text → Option ℕ
unfolding starts_with
match_length [] text = none
match_length (s ∷ secrets) text =
    if starts_with s text then some (length s) else match_length secrets text

-- `pattern.sub(lambda _: marker, text)`; the number counts the characters that a match still covers
unfoldable pub substitute : List Text → Text → ℕ → Text → Text
unfolding match_length
substitute secrets marker skip [] = []
substitute secrets marker (suc skip) (c ∷ text) = substitute secrets marker skip text
substitute secrets marker zero (c ∷ text) = elim (match_length secrets (c ∷ text)) [
  | none ↦ c ∷ substitute secrets marker zero text
  | some n ↦ marker ++ substitute secrets marker (n - 1) text
]

-- `c in set(''.join(secrets))`
unfoldable pub is_used : List Text → ℕ → Bool
is_used secrets c = any (any (λ d. d == c)) secrets

module _ (is_printable : ℕ → Bool) where
  unfoldable pub is_candidate : List Text → ℕ → Bool
  unfolding is_used
  is_candidate secrets c = not (is_used secrets c) && is_printable c

  -- the first of a list, then the first in a range: `itertools.chain` under `next`
  unfoldable pub first_of_list : List Text → Text → Option ℕ
  first_of_list secrets [] = none
  first_of_list secrets (c ∷ rest) =
      if is_candidate secrets c then some c else first_of_list secrets rest

  unfoldable pub first_of_range : List Text → ℕ → ℕ → Option ℕ
  first_of_range secrets zero point = none
  first_of_range secrets (suc left) point = elim (is_candidate secrets point) [
    | true ↦ some point
    | false ↦ first_of_range secrets left (point + 1)
  ]

  abbrev or_in_range : List Text → ℕ → Option ℕ → Option ℕ
  or_in_range secrets left none = first_of_range secrets left 0x2580
  or_in_range secrets left (some c) = some c

  -- `_marker_avoiding`, where `left` counts the points of the range; `none` is a `StopIteration`
  unfoldable pub marker_among : ℕ → List Text → Option Text
  unfolding is_candidate first_of_list first_of_range
  marker_among left secrets =
      Option.map (replicate 8) (or_in_range secrets left (first_of_list secrets (codes "#~^%")))

  unfoldable pub redact_among : ℕ → Text → List Text → Option Text
  unfolding substitute marker_among is_infix
  redact_among left text [] = some text
  redact_among left text (s ∷ secrets) =
      let result = substitute (s ∷ secrets) redacted 0 text in
      if any (λ secret. is_infix secret result) (s ∷ secrets)
      then Option.map (λ marker. substitute (s ∷ secrets) marker 0 text)
          (marker_among left (s ∷ secrets))
      else some result

  -- `redact`: the range runs from U+2580 to `sys.maxunicode`
  unfoldable pub redact : Text → List Text → Option Text
  unfolding redact_among
  redact = redact_among (0x110000 - 0x2580)

-- `_CONTROL_CHARACTERS`
unfoldable pub is_control : ℕ → Bool
is_control c =
    leb c 8 || (leb 10 c && leb c 31) || (leb 0x7f c && leb c 0x9f) || c == 0x2028 || c == 0x2029

abbrev hex_digit : ℕ → ℕ
hex_digit n = if ltb n 10 then b'0' + n else b'a' + (n - 10)

-- `repr(c)[1:-1]` of a control character
unfoldable pub written_out : ℕ → Text
written_out c =
    if c == 10
    then codes "\\n"
    else if c == 13
    then codes "\\r"
    else if ltb c 256
    then b'\\' ∷ b'x' ∷ hex_digit (c / 16) ∷ hex_digit (c % 16) ∷ []
    else b'\\'
      ∷ b'u'
      ∷ hex_digit (c / 4096 % 16)
      ∷ hex_digit (c / 256 % 16)
      ∷ hex_digit (c / 16 % 16)
      ∷ hex_digit (c % 16)
      ∷ []

unfoldable pub escape_control_characters : Text → Text
unfolding is_control written_out
escape_control_characters [] = []
escape_control_characters (c ∷ text) =
    (if is_control c then written_out c else c ∷ []) ++ escape_control_characters text

abbrev pub every_form : List Text → List Text
every_form secrets = secrets_for_redaction (secrets ++ map escape_control_characters secrets)

module _ (is_printable : ℕ → Bool) where
  infixl 5 ◌>>=◌
  abbrev ◌>>=◌ : Option Text → (Text → Option Text) → Option Text
  none >>= f = none
  some t >>= f = f t

  unfoldable pub printable : Text → List Text → Option Text
  unfolding redact escape_control_characters secrets_for_redaction
  printable text secrets = do
    let forms = every_form secrets
    once ← redact is_printable text forms
    redact is_printable (escape_control_characters once) forms

abbrev ascii : ℕ → Bool
ascii c = leb 32 c && leb c 126

redact_test :
    redact ascii (codes "pw=abcd, ab") (secrets_for_redaction (codes "ab" ∷ codes "abc" ∷ [] ∷ []))
    ≡ some (codes "pw=*censored*d, *censored*")
unfolding redact secrets_for_redaction
redact_test = refl

redact_marker_test :
    redact ascii (codes "a#b censor") (secrets_for_redaction (codes "censor" ∷ codes "#" ∷ []))
    ≡ some (codes "a~~~~~~~~b ~~~~~~~~")
unfolding redact secrets_for_redaction
redact_marker_test = refl

printable_test :
    printable ascii (10 ∷ codes "s3" ++ 0x2028 ∷ []) (codes "s3" ∷ [])
    ≡ some (codes "\\n*censored*\\u2028")
unfolding printable
printable_test = refl
