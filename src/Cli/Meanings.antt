-- ===== src/Cli/Meanings.antt =====
-- cli.py: the tokens that `argparse` takes for the password's option, and those that `_option_values` does.
use teamspeak_prometheus.Base.{
  ◌≡◌, refl, sym, ap, subst, Bool, true, false, ◌&&◌, Option, none, some, List, [], ◌∷◌, Text,
  codes, arith, All, partition, contains, same, same_eq, same_refl, Bool-cases, starts_with, inl,
  inr, list_eq, nat_eq, take, length, ◌==◌,
}
use teamspeak_prometheus.Cli.{names_option, flag_names}
use teamspeak_prometheus.Cli.Argparse.{
  Meaning, option, explicit_of, matches_long, matches_short, all_options, of_matches, interpret,
}

abbrev pub password : Text
password = codes "--ts3password"

-- a name that stands for the password's option, and the value in its token
abbrev pub IsPassword : Text → Option Text → Type 0
IsPassword token explicit =
    (names_option (password ∷ []) (partition b'=' token).0 ≡ true)
    × (explicit ≡ explicit_of (partition b'=' token))

-- A match of the long name that is the password's option makes the name a prefix of it.
abbrev Long : Text → Option Text → Text × Option Text → Type 0
Long name explicit m = (starts_with name m.0 ≡ true) × (m.1 ≡ explicit)

All-matches_long :
    (name : Text) (explicit : Option Text) (options : List Text)
    → All (Long name explicit) (matches_long name explicit options)
unfolding matches_long
All-matches_long name explicit [] = tt
All-matches_long name explicit (o ∷ options) = elim (Bool-cases (starts_with name o)) [
  | inl e ↦ rw e ((e, refl), All-matches_long name explicit options)
  | inr e ↦ rw e (All-matches_long name explicit options)
]

-- A name of less than three characters is short for more than one option.
names_option-of_matches :
    (is_number : Text → Bool) (token name : Text) (explicit e : Option Text)
    → starts_with name password ≡ true
    → of_matches is_number flag_names token
        (matches_long name explicit (all_options is_number flag_names))
      ≡ option password e
    → names_option (password ∷ []) name ≡ true
unfolding matches_long names_option starts_with
names_option-of_matches is_number token [] explicit e h q = ground arith
names_option-of_matches is_number token (a ∷ []) explicit e h q = ground arith
names_option-of_matches is_number token (a ∷ b ∷ []) explicit e h q = ground arith
names_option-of_matches is_number token (a ∷ b ∷ c ∷ name) explicit e h q = ground arith

short-same : (token o : Text) → o ≡ take 2 token → same o password ≡ false
unfolding list_eq
short-same [] o e = ground arith
short-same (a ∷ []) o e = ground arith
short-same (a ∷ b ∷ rest) o e = ground arith

short-password :
    (token : Text)
    → starts_with (codes "-") token ≡ true
    → (length token == 1) ≡ false
    → starts_with (codes "--") token ≡ false
    → starts_with token password ≡ true
    → ⊥
unfolding starts_with
short-password [] h l k q = ground arith
short-password (a ∷ []) h l k q = ground arith
short-password (a ∷ b ∷ rest) h l k q = ground arith

-- An option of one dash is not the password's.
module _ (token : Text) (h : starts_with (codes "-") token ≡ true) (l : (length token == 1) ≡ false)
    (k : starts_with (codes "--") token ≡ false) where
  prefix-same : (o : Text) → starts_with token o ≡ true → same o password ≡ false
  prefix-same o q = elim (Bool-cases (same o password)) [
    | inr e ↦ e
    | inl e ↦ absurd (
        short-password token h l k
          (subst (λ p. starts_with token p ≡ true) (same_eq o password e) q))
  ]

  All-matches_short :
      (options : List Text) → All (λ m. same m.0 password ≡ false) (matches_short token options)
  unfolding matches_short
  All-matches_short [] = tt
  All-matches_short (o ∷ options) = elim (Bool-cases (same o (take 2 token))) [
    | inl e ↦ rw e (short-same token o (same_eq o (take 2 token) e), All-matches_short options)
    | inr e ↦ elim (Bool-cases (starts_with token o)) [
      | inl q ↦ rw (e, q) (prefix-same o q, All-matches_short options)
      | inr q ↦ rw (e, q) (All-matches_short options)
    ]
  ]

option-same :
    {o o' : Text} {e e' : Option Text}
    → option o e ≡ option o' e'
    → ◌≡◌ {A = Text × Option Text} (o, e) (o', e')
option-same q = ap pair_of q
  where
    pair_of : Meaning → Text × Option Text
    pair_of (option o e) = (o, e)
    pair_of _ = ([], none)

IsPassword-self :
    (token : Text) (e : Option Text)
    → ◌≡◌ {A = Text × Option Text} (token, none) (password, e)
    → IsPassword token e
unfolding names_option partition starts_with
IsPassword-self token e q =
    subst (λ t. IsPassword t e) (sym (ap (λ m. m.0) q)) (refl, sym (ap (λ m. m.1) q))

IsPassword-value :
    (parts : Text × Bool × Text) (e : Option Text)
    → parts.1 ≡ true
    → ◌≡◌ {A = Text × Option Text} (parts.0, some parts.2) (password, e)
    → (names_option (password ∷ []) parts.0 ≡ true) × (e ≡ explicit_of parts)
unfolding names_option starts_with
IsPassword-value (name, true, value) e h q = (rw (ap (λ m. m.0) q) refl, sym (ap (λ m. m.1) q))
IsPassword-value (name, false, value) e h q = absurd (ground arith)

module _ (is_number : Text → Bool) where
  -- what the one match is
  of_matches-All :
      (P : Text × Option Text → Type 0) (token o : Text) (e : Option Text)
      (ms : List (Text × Option Text))
      → All P ms
      → of_matches is_number flag_names token ms ≡ option o e
      → P (o, e)
  of_matches-All P token o e [] h q = absurd (ground arith)
  of_matches-All P token o e ((o', e') ∷ []) (h, _) q = subst P (option-same q) h
  of_matches-All P token o e (first ∷ second ∷ rest) h q = absurd (ground arith)

  -- the token is an option, `=` and a value
  abbrev has_value : Text → Bool
  has_value token =
      (partition b'=' token).1
      && contains (all_options is_number flag_names) (partition b'=' token).0

  long :
      (token : Text) (e : Option Text)
      → of_matches is_number flag_names token (
          matches_long
            (partition b'=' token).0
            (explicit_of (partition b'=' token))
            (all_options is_number flag_names))
        ≡ option password e
      → IsPassword token e
  long token e q =
      let name = (partition b'=' token).0 in
      let explicit = explicit_of (partition b'=' token) in
      let options = all_options is_number flag_names in
      let (h, same_explicit) =
        of_matches-All (Long name explicit) token password e (matches_long name explicit options)
          (All-matches_long name explicit options) q in
      (names_option-of_matches is_number token name explicit e h q, same_explicit)

  short :
      (token : Text) (e : Option Text)
      → starts_with (codes "-") token ≡ true
      → (length token == 1) ≡ false
      → starts_with (codes "--") token ≡ false
      → of_matches is_number flag_names token
          (matches_short token (all_options is_number flag_names))
        ≡ option password e
      → IsPassword token e
  unfolding list_eq nat_eq
  short token e h l k q =
      let options = all_options is_number flag_names in
      absurd (
        ground (
          arith,
          of_matches-All (λ m. same m.0 password ≡ false) token password e
              (matches_short token options) (All-matches_short token h l k options) q,
          same_refl password,
        ))

  pub interpret-IsPassword :
      (token : Text) (e : Option Text)
      → interpret is_number flag_names token ≡ option password e
      → IsPassword token e
  unfolding interpret
  interpret-IsPassword token e q = elim (Bool-cases (starts_with (codes "-") token)) [
    | inr a ↦ absurd (ground (arith, rw (interpret, a) at q))
    | inl a ↦ elim (Bool-cases (contains (all_options is_number flag_names) token)) [
      | inl b ↦ IsPassword-self token e (option-same (rw (interpret, a, b) at q))
      | inr b ↦ elim (Bool-cases (length token == 1)) [
        | inl c ↦ absurd (ground (arith, rw (interpret, a, b, c) at q))
        | inr c ↦ elim (Bool-cases (has_value token)) [
          | inl d ↦
              IsPassword-value (partition b'=' token) e (ground (arith, d))
                (option-same (rw (interpret, a, b, c, d) at q))
          | inr d ↦ elim (Bool-cases (starts_with (codes "--") token)) [
            | inl f ↦ long token e (rw (interpret, a, b, c, d, f) at q)
            | inr f ↦ short token e a c f (rw (interpret, a, b, c, d, f) at q)
          ]
        ]
      ]
    ]
  ]
