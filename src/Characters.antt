-- ===== src/Characters.antt =====
-- The interpreter's character database, and `int(text)` over it.
use teamspeak_prometheus.Base.{
  ℕ, zero, suc, ◌+◌, ◌-◌, ◌*◌, ◌≡◌, refl, Bool, true, false, not, ◌&&◌, ◌==◌, leb, if◌then◌else◌,
  Option, none, some, [], ◌∷◌, ◌++◌, Text, codes, is_empty, is_space,
}

-- `negsuc n` is -(n + 1).
pub data ℤ : Type 0 where
  pos : ℕ → ℤ
  negsuc : ℕ → ℤ

-- `isprintable`, the value of a decimal digit, and `upper` of one character.
pub record Characters : Type 0 where
  pub is_printable : ℕ → Bool
  pub decimal : ℕ → Option ℕ
  pub upper : ℕ → Text

-- the whitespace that `int` skips
unfoldable pub is_int_space : ℕ → Bool
unfolding is_space
is_int_space c = is_space c && not (leb 28 c && leb c 31)

unfoldable pub skip_left : Text → Text
unfolding is_int_space
skip_left [] = []
skip_left (c ∷ text) = let rest = skip_left text in if is_int_space c then rest else c ∷ text

unfoldable pub skip_right : Text → Text
unfolding is_int_space
skip_right [] = []
skip_right (c ∷ text) =
    let rest = skip_right text in if is_empty rest && is_int_space c then [] else c ∷ rest

-- `sys.get_int_max_str_digits()` as it is by default
abbrev pub max_digits : ℕ
max_digits = 4300

abbrev negative : ℕ → ℤ
negative zero = pos zero
negative (suc n) = negsuc n

module _ (C : Characters) where
  -- digits with single underscores between them; `left` digits may still come
  unfoldable pub read_digits : ℕ → Bool → ℕ → Text → Option ℕ
  read_digits left true value [] = some value
  read_digits left false value [] = none
  read_digits left after_digit value (c ∷ text) = elim (C.decimal c) [
    | none ↦
        let more = read_digits left false value text in
        if c == b'_' && after_digit then more else none
    | some d ↦ elim left [ zero ↦ none | suc rest ↦ read_digits rest true (value * 10 + d) text ]
  ]

  abbrev signed : Text → Option ℤ
  signed [] = none
  signed (c ∷ text) =
      if c == b'-'
      then elim (read_digits max_digits false 0 text) [ none ↦ none | some n ↦ some (negative n) ]
      else if c == b'+'
      then elim (read_digits max_digits false 0 text) [ none ↦ none | some n ↦ some (pos n) ]
      else elim (read_digits max_digits false 0 (c ∷ text)) [ none ↦ none | some n ↦ some (pos n) ]

  -- `int(text)`; `none` is a `ValueError`
  unfoldable pub parse_int : Text → Option ℤ
  unfolding skip_left skip_right read_digits
  parse_int text = signed (skip_right (skip_left text))

  -- `text.upper()`
  unfoldable pub upper_text : Text → Text
  upper_text [] = []
  upper_text (c ∷ text) = C.upper c ++ upper_text text

-- The part of the database that ASCII text needs.
abbrev pub ascii : Characters
ascii = record {
  is_printable = λ c. leb 32 c && leb c 126;
  decimal = λ c. if leb b'0' c && leb c b'9' then some (c - b'0') else none;
  upper = λ c. (if leb b'a' c && leb c b'z' then c - 32 else c) ∷ [];
}

parse_int_test : parse_int ascii (codes " -1_0\n") ≡ some (negsuc 9)
unfolding parse_int
parse_int_test = refl

parse_int_bad_test : parse_int ascii (codes "1__0") ≡ none
unfolding parse_int
parse_int_bad_test = refl
