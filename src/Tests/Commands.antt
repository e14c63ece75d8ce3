-- ===== src/Tests/Commands.antt =====
-- The passwords of a command line.
use teamspeak_prometheus.Base.{
  Bool, false, is_space, contains, Option, strip, ◌≡◌, refl, true, some, List, [], ◌∷◌, ◌++◌, Text,
  codes, is_infix, starts_with, arith, inl, list_eq, nat_eq,
}
use mathlib.Core.List.{Memᴰ}
use teamspeak_prometheus.Base.Dict
use teamspeak_prometheus.Characters.{ascii, parse_int, upper_text}
use teamspeak_prometheus.Config.{
  Config, Env, valid, resolve_config, raw_value, shown_row, parse_port, parse_interval,
  parse_log_level, parse_text, parse_required_text,
}
use teamspeak_prometheus.Redaction.Marker.{IsMarker}
use teamspeak_prometheus.Redaction.Hides.{points}
use teamspeak_prometheus.Cli.{
  Namespace, names_option, option_values, printed, remember, store, parse_args, password_candidates,
}
use teamspeak_prometheus.Cli.{flag_names}
use teamspeak_prometheus.Cli.Argparse.{read_tokens, interpret}
use teamspeak_prometheus.Cli.Meanings.{password}
use teamspeak_prometheus.Redaction.{redact, secrets_for_redaction}
use teamspeak_prometheus.Cli.Parser.{parser_of, begin_parsing, error}
use teamspeak_prometheus.Cli.Errors.{error-hides}
use teamspeak_prometheus.Cli.Masking.{mask, mask_values}
use teamspeak_prometheus.Cli.Passwords.{password-IsCandidate}
use teamspeak_prometheus.Tests.Fixture.{whole_numbers}
use teamspeak_prometheus.Cli.Secrets.{tokens, printed-hides}

abbrev option : Text
option = codes "--ts3password"

abbrev before : List Text
before = codes "--loglvel" ∷ []

abbrev argv : List Text
argv = before ++ (tokens true option (codes "pw") ++ codes "x" ∷ [])

marker : IsMarker ascii.is_printable points ([] ++ option_values (option ∷ []) argv) b'#'
unfolding option_values names_option starts_with
marker = record {
  unused = ground arith;
  shown = refl;
  in_range = inl (unfold list_eq nat_eq in refl);
}

named : names_option (option ∷ []) option ≡ true
unfolding names_option starts_with
named = refl

printed-hides_example :
    (r : Text) × (printed ascii.is_printable [] (option ∷ []) argv (codes "unknown pw") ≡ some r)
    × (is_infix (codes "pw") r ≡ false)
printed-hides_example =
    printed-hides ascii.is_printable [] (option ∷ []) before (codes "x" ∷ []) true option
      (codes "pw") (codes "unknown pw") b'#' (ground arith) named refl marker

candidates_test :
    password_candidates
      (remember
        (codes "ts3password")
        (codes "new")
        (remember (codes "ts3password") (codes "old") (record { values = []; given = [] })))
      ((codes "TEAMSPEAK_PASSWORD", codes "env") ∷ [])
    ≡ codes "old" ∷ codes "new" ∷ codes "env" ∷ []
unfolding password_candidates remember Dict.get Dict.put list_eq nat_eq
candidates_test = refl

-- `--ts3password old --ts3host h --ts3password new`
abbrev flags : List (Text × Text)
flags =
    (codes "ts3password", codes "old")
    ∷ (codes "ts3host", codes "h")
    ∷ (codes "ts3password", codes "new")
    ∷ []

abbrev namespace : Namespace
namespace = record {
  values = (codes "ts3password", codes "new") ∷ (codes "ts3host", codes "h") ∷ [];
  given = (codes "ts3password", codes "old" ∷ codes "new" ∷ []) ∷ [];
}

-- `argparse` reads these flags of every command line
abbrev read_flags : List Text → List Text → Option (List (Text × Text))
read_flags _ _ = some flags

flags_test : parse_args read_flags argv ≡ some namespace
unfolding parse_args store remember Dict.get Dict.put list_eq nat_eq
flags_test = refl

abbrev env : Env
env = (codes "TEAMSPEAK_POLL_INTERVAL", codes "5") ∷ []

abbrev new_config : Config whole_numbers.Float
new_config = record {
  host = codes "h";
  port = 10011;
  username = codes "serveradmin";
  password = codes "new";
  metrics_port = 8000;
  poll_interval = 5;
  log_level = codes "INFO";
}

new_config_test : resolve_config whole_numbers ascii namespace.values env ≡ valid new_config
unfolding resolve_config raw_value parse_port parse_interval parse_log_level parse_text
    parse_required_text shown_row parse_int upper_text strip Dict.get list_eq nat_eq
new_config_test = refl

password-IsCandidate_example :
    contains (password_candidates namespace env) new_config.password ≡ true
password-IsCandidate_example =
    password-IsCandidate whole_numbers ascii read_flags argv namespace env new_config flags_test
      new_config_test refl

-- `--ts3pasword` is a typo.
abbrev mistyped : List Text
mistyped = codes "--ts3pasword" ∷ codes "s3 cret" ∷ codes "--ts3host=h" ∷ []

abbrev known : List Text
known = codes "--ts3host" ∷ codes "--ts3password" ∷ []

abbrev complaint : Text
complaint = codes "unrecognized arguments: --ts3pasword 's3 cret'"

complaint_test :
    mask_values complaint mistyped known
    ≡ codes "unrecognized arguments: "
      ++ mask ∷ codes " '"
      ++ mask ∷ codes "' (argument values hidden; see --help)"
unfolding mask_values is_space list_eq nat_eq
complaint_test = refl

-- `--ts3pa old --ts3host= -x --ts3password new`
abbrev repeated : List Text
repeated =
    codes "--ts3pa"
    ∷ codes "old"
    ∷ codes "--ts3host="
    ∷ codes "-x"
    ∷ codes "--ts3password"
    ∷ codes "new"
    ∷ []

no_number : Text → Bool
no_number token = false

repeated_test : read_tokens no_number flag_names repeated ≡ (
  (codes "--ts3password", codes "old")
      ∷ (codes "--ts3host", [])
      ∷ (codes "--ts3password", codes "new")
      ∷ [],
  false,
)
unfolding read_tokens no_number interpret list_eq nat_eq starts_with
repeated_test = refl

old_read : Memᴰ (password, codes "old") (read_tokens no_number flag_names repeated).0
old_read = rw repeated_test (Memᴰ.head refl)

repeated_marker :
    IsMarker ascii.is_printable points ([] ++ option_values (option ∷ []) repeated) b'#'
unfolding option_values names_option starts_with
repeated_marker = record {
  unused = ground arith;
  shown = refl;
  in_range = inl (unfold list_eq nat_eq in refl);
}

error-hides_example :
    (u : Text) × (m : Text) × (error ascii.is_printable
        (begin_parsing repeated (parser_of []))
        (codes "usage")
        (codes "app.py")
        (codes "unrecognized arguments: -x old")
      ≡ some (u, 2, some m))
    × (is_infix (codes "old") u ≡ false)
    × (is_infix (codes "old") m ≡ false)
error-hides_example =
    error-hides no_number ascii.is_printable [] repeated (codes "old") (codes "usage")
      (codes "app.py") (codes "unrecognized arguments: -x old") b'#' old_read refl repeated_marker

error_test :
    error ascii.is_printable
      (begin_parsing repeated (parser_of []))
      (codes "usage")
      (codes "app.py")
      (codes "unrecognized arguments: -x old")
    ≡ some (
      codes "usage",
      2,
      some (
          codes "app.py: error: unrecognized arguments: "
          ++ mask ∷ codes " "
          ++ mask ∷ codes " (argument values hidden; see --help)\n"),
    )
unfolding error begin_parsing parser_of printed redact secrets_for_redaction mask_values is_infix
    option_values is_space list_eq nat_eq
error_test = refl
