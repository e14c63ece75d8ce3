-- ===== src/Cli.antt =====
-- teamspeak_prometheus/cli.py: the passwords among the arguments. What argparse keeps is a namespace.
pub mod Secrets
pub mod Passwords
pub mod Masking
pub mod Masked
pub mod Argparse
pub mod Meanings
pub mod Given
pub mod Parser
pub mod Errors
use teamspeak_prometheus.Base.{
  ℕ, ◌≡◌, refl, Bool, true, false, not, ◌&&◌, ◌||◌, ltb, if◌then◌else◌, Option, none, some, List,
  [], ◌∷◌, ◌++◌, Text, codes, is_empty, starts_with, partition, length, any, same, list_eq, nat_eq,
}
use mathlib.Core.Option
use teamspeak_prometheus.Base.Dict
use teamspeak_prometheus.Base.Dict.{Dict}
use teamspeak_prometheus.Redaction.{redact, secrets_for_redaction}
use teamspeak_prometheus.Config.{Args, Env}

-- the value of a token that names one of the options
abbrev pub value_in : Text × Bool × Text → List Text → List Text
value_in (name, true, value) rest = value ∷ []
value_in (name, false, value) [] = []
value_in (name, false, value) (next ∷ rest) = next ∷ []

-- whether `_option_values` reads a token with this name
unfoldable pub names_option : List Text → Text → Bool
unfolding starts_with
names_option options name =
    not (ltb (length name) 3)
    && starts_with (codes "--") name
    && any (λ option. starts_with name option) options

-- `_option_values`
unfoldable pub option_values : List Text → List Text → List Text
unfolding names_option partition
option_values options [] = []
option_values options (token ∷ rest) =
    let later = option_values options rest in
    let parts = partition b'=' token in
    if names_option options parts.0 then value_in parts rest ++ later else later

-- `SafeArgumentParser._secrets` and what `print_help`, `print_usage` and `exit` print of a text
unfoldable pub parser_secrets : List Text → List Text → List Text → List Text
unfolding option_values
parser_secrets secrets secret_options argv =
    secrets_for_redaction (secrets ++ option_values secret_options argv)

unfoldable pub printed : (ℕ → Bool) → List Text → List Text → List Text → Text → Option Text
unfolding parser_secrets
printed is_printable secrets secret_options argv text =
    redact is_printable text (parser_secrets secrets secret_options argv)

-- `argparse.Namespace`: the values, and those of the attributes `<dest>_given`
pub record Namespace : Type 0 where
  pub values : Args
  pub given : Dict Text (List Text)

abbrev pub or_nothing : Option (List Text) → List Text
or_nothing none = []
or_nothing (some vs) = vs

-- `RememberEveryValue.__call__`
unfoldable pub remember : Text → Text → Namespace → Namespace
remember dest value ns = record {
  values = Dict.put ns.values dest value;
  given = Dict.put ns.given dest (or_nothing (Dict.get ns.given dest) ++ value ∷ []);
}

-- the action of a flag: that of `--ts3password`, or `store`
unfoldable pub store : Namespace → Text × Text → Namespace
unfolding remember
store ns (dest, value) =
    if same dest (codes "ts3password")
    then remember dest value ns
    else record ns { values = Dict.put ns.values dest value }

-- the actions of the flags in their order
unfoldable pub namespace_of : Namespace → List (Text × Text) → Namespace
unfolding store
namespace_of ns [] = ns
namespace_of ns (flag ∷ flags) = namespace_of (store ns flag) flags

abbrev pub no_flags : Namespace
no_flags = record { values = []; given = [] }

-- the flags that `parse_args` adds
abbrev pub flag_names : List Text
flag_names =
    codes "--ts3host"
    ∷ codes "--ts3port"
    ∷ codes "--ts3username"
    ∷ codes "--ts3password"
    ∷ codes "--metricsport"
    ∷ codes "--pollinterval"
    ∷ codes "--loglevel"
    ∷ []

-- `parse_args`, where `read_flags` is how `argparse` takes the tokens apart: the destinations of the flags
-- and their values, or `none` if it exits
unfoldable pub parse_args :
    (List Text → List Text → Option (List (Text × Text))) → List Text → Option Namespace
unfolding namespace_of
parse_args read_flags argv = Option.map (namespace_of no_flags) (read_flags flag_names argv)

abbrev pub one_value : Option Text → List Text
one_value none = []
one_value (some v) = if is_empty v then [] else v ∷ []

-- `given_values`
unfoldable pub given_values : Namespace → Text → List Text
given_values ns dest = elim (Dict.get ns.given dest) [
  | some vs ↦ vs
  | none ↦ one_value (Dict.get ns.values dest)
]

-- `[value for value in values if value]`
unfoldable pub non_empty : List Text → List Text
non_empty [] = []
non_empty (v ∷ vs) = let rest = non_empty vs in if is_empty v then rest else v ∷ rest

-- `password_candidates`
unfoldable pub password_candidates : Namespace → Env → List Text
unfolding given_values non_empty
password_candidates ns env =
    non_empty (
      given_values ns (codes "ts3password")
      ++ one_value (Dict.get env (codes "TEAMSPEAK_PASSWORD")))
