-- ===== src/Cli/Given.antt =====
-- cli.py: `_option_values` beside what `argparse` reads for the password's option.
use mathlib.Core.List.{Memᴰ}
use teamspeak_prometheus.Base.{
  ℕ, ◌≡◌, refl, ap, ◌∙◌, Bool, true, false, ◌&&◌, none, some, List, [], ◌∷◌, ◌++◌, Text, codes,
  arith, All, All-mono, All-at, partition, contains, same, same_refl, Bool-cases, inl, inr, list_eq,
  nat_eq,
}
use teamspeak_prometheus.Cli.{option_values, value_in, flag_names}
use teamspeak_prometheus.Cli.Secrets.{contains-option_values-append, printed-hides_given}
use teamspeak_prometheus.Cli.Argparse.{
  Meaning, positional, unknown, option, ambiguous, explicit_of, interpret, is_value, read_tokens,
}
use teamspeak_prometheus.Cli.Meanings.{password, interpret-IsPassword}
use teamspeak_prometheus.Cli.{printed}
use teamspeak_prometheus.Redaction.Marker.{IsMarker}
use teamspeak_prometheus.Redaction.Hides.{NonEmpty, points}
use teamspeak_prometheus.Base.{is_infix}

contains-value_in-explicit :
    (parts : Text × Bool × Text) (rest later : List Text) (v : Text)
    → some v ≡ explicit_of parts
    → contains (value_in parts rest ++ later) v ≡ true
contains-value_in-explicit (name, true, value) rest later v e = ground (arith, same_refl v)
contains-value_in-explicit (name, false, value) rest later v e = absurd (ground arith)

contains-value_in-next :
    (parts : Text × Bool × Text) (next : Text) (rest later : List Text)
    → none ≡ explicit_of parts
    → contains (value_in parts (next ∷ rest) ++ later) next ≡ true
contains-value_in-next (name, true, value) next rest later e = absurd (ground arith)
contains-value_in-next (name, false, value) next rest later e = rw (same_refl next) refl

module _ (is_number : Text → Bool) where
  -- a value of the password's option is one that `_option_values` finds
  abbrev IsFound : List Text → Text × Text → Type 0
  IsFound argv (o, v) = o ≡ password → contains (option_values (password ∷ []) argv) v ≡ true

  All-IsFound-append :
      (before argv : List Text) (flags : List (Text × Text))
      → All (IsFound argv) flags
      → All (IsFound (before ++ argv)) flags
  All-IsFound-append before argv flags =
      All-mono (IsFound argv) (IsFound (before ++ argv)) flags
        (λ (o, v) h e. contains-option_values-append (password ∷ []) before argv v (h e))

  IsFound-explicit :
      (token o v : Text) (rest : List Text)
      → interpret is_number flag_names token ≡ option o (some v)
      → IsFound (token ∷ rest) (o, v)
  unfolding option_values
  IsFound-explicit token o v rest q e =
      let (named, explicit) =
        interpret-IsPassword is_number token (some v) (q ∙ ap (λ p. option p (some v)) e) in
      rw (option_values, named)
        (contains-value_in-explicit (partition b'=' token) rest (option_values (password ∷ []) rest)
          v explicit)

  IsFound-next :
      (token o next : Text) (rest : List Text)
      → interpret is_number flag_names token ≡ option o none
      → IsFound (token ∷ next ∷ rest) (o, next)
  unfolding option_values
  IsFound-next token o next rest q e =
      let (named, explicit) =
        interpret-IsPassword is_number token none (q ∙ ap (λ p. option p none) e) in
      rw (option_values, named)
        (contains-value_in-next (partition b'=' token) next rest
          (option_values (password ∷ []) (next ∷ rest)) explicit)

  read_tokens-one :
      (token : Text) (m : Meaning)
      → interpret is_number flag_names token ≡ m
      → same token (codes "--") ≡ false
      → All (IsFound (token ∷ [])) (read_tokens is_number flag_names (token ∷ [])).0
  unfolding read_tokens
  read_tokens-one token (option o (some v)) q a = elim (Bool-cases (contains flag_names o)) [
    | inl b ↦ rw (read_tokens, a, q, b) (IsFound-explicit token o v [] q, tt)
    | inr b ↦ rw (read_tokens, a, q, b) tt
  ]
  read_tokens-one token (option o none) q a = rw (read_tokens, a, q) tt
  read_tokens-one token positional q a = rw (read_tokens, a, q) tt
  read_tokens-one token unknown q a = rw (read_tokens, a, q) tt
  read_tokens-one token ambiguous q a = rw (read_tokens, a, q) tt

  read_tokens-more :
      (token next : Text) (rest : List Text) (m : Meaning)
      → interpret is_number flag_names token ≡ m
      → same token (codes "--") ≡ false
      → All (IsFound (next ∷ rest)) (read_tokens is_number flag_names (next ∷ rest)).0
      → All (IsFound rest) (read_tokens is_number flag_names rest).0
      → All
          (IsFound (token ∷ next ∷ rest))
          (read_tokens is_number flag_names (token ∷ next ∷ rest)).0
  unfolding read_tokens
  read_tokens-more token next rest positional q a after later =
      rw (read_tokens, a, q)
        (All-IsFound-append (token ∷ []) (next ∷ rest)
          (read_tokens is_number flag_names (next ∷ rest)).0 after)
  read_tokens-more token next rest unknown q a after later =
      rw (read_tokens, a, q)
        (All-IsFound-append (token ∷ []) (next ∷ rest)
          (read_tokens is_number flag_names (next ∷ rest)).0 after)
  read_tokens-more token next rest ambiguous q a after later = rw (read_tokens, a, q) tt
  read_tokens-more token next rest (option o (some v)) q a after later =
      elim (Bool-cases (contains flag_names o)) [
        | inl b ↦
            rw (read_tokens, a, q, b)
              (
                IsFound-explicit token o v (next ∷ rest) q,
                All-IsFound-append (token ∷ []) (next ∷ rest)
                    (read_tokens is_number flag_names (next ∷ rest)).0 after,
              )
        | inr b ↦ rw (read_tokens, a, q, b) tt
      ]
  read_tokens-more token next rest (option o none) q a after later =
      elim (Bool-cases (
        contains flag_names o
        && is_value is_number flag_names next (interpret is_number flag_names next))) [
          | inl b ↦
              rw (read_tokens, a, q, b)
                (
                  IsFound-next token o next rest q,
                  All-IsFound-append (token ∷ next ∷ []) rest
                      (read_tokens is_number flag_names rest).0 later,
                )
          | inr b ↦ rw (read_tokens, a, q, b) tt
        ]

  All-read_tokens :
      (argv : List Text) → All (IsFound argv) (read_tokens is_number flag_names argv).0
  unfolding read_tokens
  All-read_tokens [] = tt
  All-read_tokens (token ∷ []) = elim (Bool-cases (same token (codes "--"))) [
    | inl a ↦ rw (read_tokens, a) tt
    | inr a ↦ read_tokens-one token (interpret is_number flag_names token) refl a
  ]
  All-read_tokens (token ∷ next ∷ rest) =
      let after = All-read_tokens (next ∷ rest) in
      let later = All-read_tokens rest in
      elim (Bool-cases (same token (codes "--"))) [
        | inl a ↦ rw (read_tokens, a) tt
        | inr a ↦
            read_tokens-more token next rest (interpret is_number flag_names token) refl a after
              later
      ]

contains-given :
    (is_number : Text → Bool) (argv : List Text) (v : Text)
    → Memᴰ (password, v) (read_tokens is_number flag_names argv).0
    → contains (option_values (password ∷ []) argv) v ≡ true
contains-given is_number argv v m =
    All-at (IsFound is_number argv) m (All-read_tokens is_number argv) refl

-- If a printable character of the candidates occurs in no secret, a password that `argparse` reads from
-- the command line, however its option is spelled, is nowhere in what the parser prints, also where the
-- command line is refused later.
pub read_tokens-hides :
    (is_number : Text → Bool) (is_printable : ℕ → Bool) (secrets argv : List Text)
    (value text : Text) (c : ℕ)
    → Memᴰ (password, value) (read_tokens is_number flag_names argv).0
    → NonEmpty value
    → IsMarker is_printable points (secrets ++ option_values (password ∷ []) argv) c
    → (r : Text) × (printed is_printable secrets (password ∷ []) argv text ≡ some r)
      × (is_infix value r ≡ false)
read_tokens-hides is_number is_printable secrets argv value text c m filled marker =
    printed-hides_given is_printable secrets (password ∷ []) argv value text c
      (contains-given is_number argv value m) filled marker
