-- ===== src/Cli/Secrets.antt =====
-- cli.py: the passwords that the parser finds among the arguments, and what it prints.
use teamspeak_prometheus.Base.{
  ℕ, ◌≡◌, refl, Bool, true, false, some, List, [], ◌∷◌, ◌++◌, Text, is_infix, arith,
  All-append_right, All-contains, Lacks, partition, ◌∙◌, partition-Lacks, partition-append,
  contains, contains-append, same_refl, Bool-cases, inl, inr, list_eq, nat_eq,
}
use teamspeak_prometheus.Redaction.Marker.{IsMarker}
use teamspeak_prometheus.Redaction.Hides.{NonEmpty, points, redact-hides}
use teamspeak_prometheus.Cli.{value_in, names_option, option_values, parser_secrets, printed}

-- an option and its value as one token or as two
abbrev pub tokens : Bool → Text → Text → List Text
tokens true option value = (option ++ b'=' ∷ value) ∷ []
tokens false option value = option ∷ value ∷ []

module _ (options : List Text) where
  pub contains-option_values-append :
      (before argv : List Text) (value : Text)
      → contains (option_values options argv) value ≡ true
      → contains (option_values options (before ++ argv)) value ≡ true
  unfolding option_values
  contains-option_values-append [] argv value h = h
  contains-option_values-append (token ∷ before) argv value h =
      let ih = contains-option_values-append before argv value h in
      let parts = partition b'=' token in
      elim (Bool-cases (names_option options parts.0)) [
        | inr e ↦ rw (option_values, e) ih
        | inl e ↦
            let first = value_in parts (before ++ argv) in
            rw (option_values, e)
              (contains-append first (option_values options (before ++ argv)) value
                ∙ ground (arith, ih))
      ]

  contains-option_values-tokens :
      (joined : Bool) (option value : Text) (rest : List Text)
      → Lacks b'=' option
      → names_option options option ≡ true
      → contains (option_values options (tokens joined option value ++ rest)) value ≡ true
  unfolding option_values
  contains-option_values-tokens true option value rest lacks named =
      rw (option_values, partition-append b'=' option value lacks, named, same_refl value) refl
  contains-option_values-tokens false option value rest lacks named =
      rw (option_values, partition-Lacks b'=' option lacks, named, same_refl value) refl

-- A value that is found among the tokens is nowhere in what is printed.
pub printed-hides_given :
    (is_printable : ℕ → Bool) (secrets options argv : List Text) (value text : Text) (c : ℕ)
    → contains (option_values options argv) value ≡ true
    → NonEmpty value
    → IsMarker is_printable points (secrets ++ option_values options argv) c
    → (r : Text) × (printed is_printable secrets options argv text ≡ some r)
      × (is_infix value r ≡ false)
printed-hides_given is_printable secrets options argv value text c found filled marker =
    let given = option_values options argv in
    let (r, e, hidden) = redact-hides is_printable text (secrets ++ given) c marker in
    let hides = All-append_right (λ s. NonEmpty s → is_infix s r ≡ false) secrets given hidden in
    (
      r,
      unfold printed parser_secrets in e,
      All-contains (λ s. NonEmpty s → is_infix s r ≡ false) given value hides found filled,
    )

-- If a printable character of the candidates occurs in no secret, a password that is given to a secret
-- option, in full or abbreviated, as one token with it or as the next one, is nowhere in what the
-- parser prints, whatever stands before and after it on the command line.
pub printed-hides :
    (is_printable : ℕ → Bool) (secrets options before rest : List Text) (joined : Bool)
    (option value text : Text) (c : ℕ)
    → Lacks b'=' option
    → names_option options option ≡ true
    → NonEmpty value
    → IsMarker is_printable points
        (secrets ++ option_values options (before ++ (tokens joined option value ++ rest)))
        c
    → (r : Text) × (printed is_printable secrets options
          (before ++ (tokens joined option value ++ rest))
          text
        ≡ some r)
      × (is_infix value r ≡ false)
printed-hides is_printable secrets options before rest joined option value text c lacks named filled
      marker =
    let argv = tokens joined option value ++ rest in
    let found =
      contains-option_values-append options before argv value
        (contains-option_values-tokens options joined option value rest lacks named) in
    printed-hides_given is_printable secrets options (before ++ argv) value text c found filled
      marker
