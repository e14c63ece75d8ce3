-- ===== src/Cli/Errors.antt =====
-- cli.py: what is printed when `argparse` refuses a command line.
use mathlib.Core.List.{Memᴰ}
use teamspeak_prometheus.Base.{ℕ, ◌≡◌, refl, Bool, false, some, List, [], ◌∷◌, ◌++◌, Text, is_infix}
use teamspeak_prometheus.Redaction.Marker.{IsMarker}
use teamspeak_prometheus.Redaction.Hides.{NonEmpty, points}
use teamspeak_prometheus.Cli.{option_values, flag_names}
use teamspeak_prometheus.Cli.Argparse.{read_tokens}
use teamspeak_prometheus.Cli.Meanings.{password}
use teamspeak_prometheus.Cli.Given.{read_tokens-hides}
use teamspeak_prometheus.Cli.Parser.{
  SafeArgumentParser, parser_of, begin_parsing, print_message, exit, error_line, error,
}

error_line-NonEmpty :
    (is_printable : ℕ → Bool) (p : SafeArgumentParser) (prog message : Text)
    → NonEmpty (error_line is_printable p prog message)
error_line-NonEmpty is_printable p [] message = refl
error_line-NonEmpty is_printable p (c ∷ prog) message = refl

error_lem :
    (is_printable : ℕ → Bool) (p : SafeArgumentParser) (usage prog message u m : Text)
    → print_message is_printable p usage ≡ some u
    → print_message is_printable p (error_line is_printable p prog message) ≡ some m
    → error is_printable p usage prog message ≡ some (u, 2, some m)
unfolding error exit
error_lem is_printable p usage prog message u m e f =
    rw (error, e, error_line-NonEmpty is_printable p prog message, f) refl

-- If a printable character of the candidates occurs in no secret, a refused command line ends with the
-- exit code 2, and a password, not empty, that `argparse` read from it before it was refused, however its
-- option is spelled, is neither in the usage nor in the message, whatever the message says.
pub error-hides :
    (is_number : Text → Bool) (is_printable : ℕ → Bool) (secrets argv : List Text)
    (value usage prog message : Text) (c : ℕ)
    → Memᴰ (password, value) (read_tokens is_number flag_names argv).0
    → NonEmpty value
    → IsMarker is_printable points (secrets ++ option_values (password ∷ []) argv) c
    → (u : Text) × (m : Text) × (error is_printable
          (begin_parsing argv (parser_of secrets))
          usage
          prog
          message
        ≡ some (u, 2, some m))
      × (is_infix value u ≡ false)
      × (is_infix value m ≡ false)
unfolding parser_of begin_parsing print_message
error-hides is_number is_printable secrets argv value usage prog message c read filled marker =
    let p = begin_parsing argv (parser_of secrets) in
    let line = error_line is_printable p prog message in
    let (u, e, h) =
      read_tokens-hides is_number is_printable secrets argv value usage c read filled marker in
    let (m, f, k) =
      read_tokens-hides is_number is_printable secrets argv value line c read filled marker in
    (u, m, error_lem is_printable p usage prog message u m e f, h, k)
