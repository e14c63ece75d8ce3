-- ===== src/Cli/Argparse.antt =====
-- cli.py: how `parse_args` of `argparse` takes the tokens of a command line apart, for a parser whose
-- options each take one value, with `--help` beside them and no positional arguments.
use teamspeak_prometheus.Base.{
  Bool, true, false, not, ◌&&◌, ◌||◌, ◌==◌, if◌then◌else◌, Option, none, some, List, [], ◌∷◌, map,
  Text, codes, starts_with, partition, length, take, drop, any, contains, same, list_eq, nat_eq,
}

-- What a token is: a positional argument, an option that is not known, the option and the value that
-- stands in the token itself, or more than one option.
pub data Meaning : Type 0 where
  positional : Meaning
  unknown : Meaning
  option : Text → Option Text → Meaning
  ambiguous : Meaning

abbrev pub explicit_of : Text × Bool × Text → Option Text
explicit_of (name, true, value) = some value
explicit_of (name, false, value) = none

-- `_get_option_tuples` of a token with two dashes: the options that the name is short for
unfoldable pub matches_long : Text → Option Text → List Text → List (Text × Option Text)
unfolding starts_with
matches_long name explicit [] = []
matches_long name explicit (o ∷ options) =
    let rest = matches_long name explicit options in
    if starts_with name o then (o, explicit) ∷ rest else rest

-- and of one with a single dash: an option of one letter, with the rest of the token as its value
unfoldable pub matches_short : Text → List Text → List (Text × Option Text)
unfolding starts_with
matches_short token [] = []
matches_short token (o ∷ options) =
    let rest = matches_short token options in
    if same o (take 2 token)
    then (o, some (drop 2 token)) ∷ rest
    else if starts_with token o
    then (o, none) ∷ rest
    else rest

module _ (is_number : Text → Bool) (names : List Text) where
  abbrev pub all_options : List Text
  all_options = codes "-h" ∷ codes "--help" ∷ names

  -- a token with a dash that matches no option
  abbrev pub no_option : Text → Meaning
  no_option token = if is_number token || any (λ c. c == b' ') token then positional else unknown

  abbrev pub of_matches : Text → List (Text × Option Text) → Meaning
  of_matches token [] = no_option token
  of_matches token ((o, explicit) ∷ []) = option o explicit
  of_matches token (first ∷ second ∷ rest) = ambiguous

  -- `_parse_optional`, where `is_number` is what looks like a negative number
  unfoldable pub interpret : Text → Meaning
  unfolding matches_long matches_short partition starts_with
  interpret token =
      let parts = partition b'=' token in
      if not (starts_with (codes "-") token)
      then positional
      else if contains all_options token
      then option token none
      else if length token == 1
      then positional
      else if parts.1 && contains all_options parts.0
      then option parts.0 (some parts.2)
      else if starts_with (codes "--") token
      then of_matches token (matches_long parts.0 (explicit_of parts) all_options)
      else of_matches token (matches_short token all_options)

  -- whether the token can be the value of the option before it
  abbrev pub is_value : Text → Meaning → Bool
  is_value token positional = not (same token (codes "--"))
  is_value token _ = false

  -- The options with their values, in their order, and whether all tokens were read. A token that is
  -- left over is passed by; `--`, `--help`, an ambiguous option and one without its value end it.
  unfoldable pub read_tokens : List Text → List (Text × Text) × Bool
  unfolding interpret
  read_tokens [] = ([], true)
  read_tokens (token ∷ []) = elim (same token (codes "--")) [
    | true ↦ ([], false)
    | false ↦ elim (interpret token) [
      | option o (some value) ↦ if contains names o then ((o, value) ∷ [], true) else ([], false)
      | other ↦ ([], false)
    ]
  ]
  read_tokens (token ∷ next ∷ rest) = elim (same token (codes "--")) [
    | true ↦ ([], false)
    | false ↦ elim (interpret token) [
      | positional ↦ ((read_tokens (next ∷ rest)).0, false)
      | unknown ↦ ((read_tokens (next ∷ rest)).0, false)
      | ambiguous ↦ ([], false)
      | option o (some value) ↦ elim (contains names o) [
        | true ↦ ((o, value) ∷ (read_tokens (next ∷ rest)).0, (read_tokens (next ∷ rest)).1)
        | false ↦ ([], false)
      ]
      | option o none ↦ elim (contains names o && is_value next (interpret next)) [
        | true ↦ ((o, next) ∷ (read_tokens rest).0, (read_tokens rest).1)
        | false ↦ ([], false)
      ]
    ]
  ]

-- the destinations of the flags and their values, or an exit
abbrev pub accepted : List (Text × Text) × Bool → Option (List (Text × Text))
accepted (flags, true) = some (map (λ (o, value). (drop 2 o, value)) flags)
accepted (flags, false) = none

unfoldable pub read_flags : (Text → Bool) → List Text → List Text → Option (List (Text × Text))
unfolding read_tokens
read_flags is_number names argv = accepted (read_tokens is_number names argv)
