-- ===== src/Cli/Parser.antt =====
-- cli.py: `SafeArgumentParser`, what it keeps and what it prints. The texts of `argparse` are arguments.
use mathlib.Core.Option
use teamspeak_prometheus.Base.{
  ℕ, Bool, if◌then◌else◌, Option, none, some, List, [], ◌∷◌, ◌++◌, Text, codes, is_empty,
}
use teamspeak_prometheus.Cli.{flag_names, printed}
use teamspeak_prometheus.Cli.Masking.{mask_values}

pub record SafeArgumentParser : Type 0 where
  pub secret_options : List Text
  pub secrets : List Text
  pub argv : List Text
  -- the keys of `_option_string_actions`
  pub option_strings : List Text

-- `__init__`, where `argparse` adds the option `--help`
abbrev pub new_parser : List Text → List Text → SafeArgumentParser
new_parser secret_options secrets = record {
  secret_options = secret_options;
  secrets = secrets;
  argv = [];
  option_strings = codes "-h" ∷ codes "--help" ∷ [];
}

-- `add_argument` for each of the names
unfoldable pub add_arguments : List Text → SafeArgumentParser → SafeArgumentParser
add_arguments [] p = p
add_arguments (name ∷ names) p =
    add_arguments names (record p { option_strings = p.option_strings ++ name ∷ [] })

-- the parser of `parse_args`
unfoldable pub parser_of : List Text → SafeArgumentParser
unfolding add_arguments
parser_of secrets = add_arguments flag_names (new_parser (codes "--ts3password" ∷ []) secrets)

-- what `parse_known_args` keeps before it parses
unfoldable pub begin_parsing : List Text → SafeArgumentParser → SafeArgumentParser
begin_parsing argv p = record p { argv = argv }

module _ (is_printable : ℕ → Bool) where
  -- `print_usage` and `print_help`
  unfoldable pub print_message : SafeArgumentParser → Text → Option Text
  print_message p text = printed is_printable p.secrets p.secret_options p.argv text

  -- `exit`: the exit code and what is printed, if anything
  unfoldable pub exit : SafeArgumentParser → ℕ → Text → Option (ℕ × Option Text)
  unfolding print_message
  exit p status message =
      if is_empty message
      then some (status, none)
      else Option.map (λ text. (status, some text)) (print_message p message)

  -- the message of `ArgumentParser.error`
  abbrev pub error_line : SafeArgumentParser → Text → Text → Text
  error_line p prog message =
      prog ++ codes ": error: " ++ mask_values message p.argv p.option_strings ++ codes "\n"

  -- `error`: the usage, and then the exit with the masked message
  unfoldable pub error : SafeArgumentParser → Text → Text → Text → Option (Text × ℕ × Option Text)
  unfolding print_message exit
  error p usage prog message = elim (print_message p usage) [
    | none ↦ none
    | some shown ↦
        Option.map (λ (status, text). (shown, status, text)) (exit p 2 (error_line p prog message))
  ]
