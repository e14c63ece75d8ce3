-- ===== src/Tests/Probes.antt =====
-- An exporter in a listing of processes, its start, and the healthcheck of it.
use mathlib.Core.List.{Memᴰ}
use teamspeak_prometheus.Base.{
  ℕ, ◌≡◌, refl, false, Option, none, some, List, [], ◌∷◌, ◌++◌, Text, codes, is_infix, arith, inl,
  split, join, strip, list_eq, nat_eq,
}
use teamspeak_prometheus.Base.Dict
use teamspeak_prometheus.Characters.{ascii, parse_int, upper_text}
use teamspeak_prometheus.Redaction.Marker.{IsMarker}
use teamspeak_prometheus.Redaction.Hides.{points}
use teamspeak_prometheus.Redaction.Lines.{forms_of}
use teamspeak_prometheus.ServerQuery.{show_with}
use teamspeak_prometheus.Redaction.{printable, escape_control_characters, secrets_for_redaction}
use teamspeak_prometheus.Config.{
  Config, Env, valid, resolve_config, raw_value, shown_row, parse_port, parse_interval,
  parse_log_level, parse_text, parse_required_text, overridden_flags,
}
use teamspeak_prometheus.Cli.{Namespace, parse_args, store, remember, password_candidates}
use teamspeak_prometheus.Logs.{Logger, another, configure_logging}
use teamspeak_prometheus.Healthcheck.{
  Proc, Outcome, passed, path_name, environment, find_exporter, effective, check, passwords,
  exporter_secrets,
}
use teamspeak_prometheus.Healthcheck as Healthcheck
use teamspeak_prometheus.Healthcheck.Lowest.{Found, find_exporter-Found}
use teamspeak_prometheus.Healthcheck.Output.{LogsInWith, main-hides}
use teamspeak_prometheus.Main.{
  Process, Event, logged, handles_termination, polls, settings, started, stopped, shutdown,
  at_start, serve, configured, main,
}
use teamspeak_prometheus.Main.Probed.{answer, check-started}
use teamspeak_prometheus.Tests.Fixture.{whole_numbers}

abbrev decode : List ℕ → Text
decode bytes = bytes

abbrev argv : List Text
argv = codes "--metricsport" ∷ codes "9100" ∷ codes "--ts3password=9100" ∷ []

-- `argparse` reads these flags of every command line
abbrev read_flags : List Text → List Text → Option (List (Text × Text))
read_flags _ _ =
    some ((codes "metricsport", codes "9100") ∷ (codes "ts3password", codes "9100") ∷ [])

abbrev exporter_env : Env
exporter_env = (codes "TEAMSPEAK_POLL_INTERVAL", codes "5") ∷ []

-- a kernel thread, the exporter, the healthcheck, and a second exporter
abbrev proc : Proc
proc = some (
    (record { pid = 12; cmdline = some (codes "/app/app.py"); environ = none })
    ∷ (record { pid = 7; cmdline = some (codes "app.py"); environ = none })
    ∷ (record {
      pid = 9;
      cmdline = some (join 0 (codes "python" ∷ codes "./app.py/." ∷ argv) ++ 0 ∷ []);
      environ = some (codes "TEAMSPEAK_POLL_INTERVAL=5" ++ 0 ∷ codes "x" ++ 0 ∷ []);
    })
    ∷ (record { pid = 2; cmdline = none; environ = none })
    ∷ [])

found_test : find_exporter decode 7 proc ≡ some (record { argv = argv; env = some exporter_env })
unfolding find_exporter join split path_name Dict.put list_eq nat_eq
found_test = refl

find_exporter-Found_example : Found decode 7 proc (find_exporter decode 7 proc)
find_exporter-Found_example = find_exporter-Found decode 7 proc

shown : effective decode 7 [] proc ≡ (argv, exporter_env)
unfolding effective find_exporter join split path_name Dict.put list_eq nat_eq
shown = refl

abbrev namespace : Namespace
namespace = record {
  values = (codes "metricsport", codes "9100") ∷ (codes "ts3password", codes "9100") ∷ [];
  given = (codes "ts3password", codes "9100" ∷ []) ∷ [];
}

parsed : parse_args read_flags argv ≡ some namespace
unfolding parse_args store remember Dict.get Dict.put list_eq nat_eq
parsed = refl

abbrev own_config : Config whole_numbers.Float
own_config = record {
  host = codes "localhost";
  port = 10011;
  username = codes "serveradmin";
  password = codes "9100";
  metrics_port = 9100;
  poll_interval = 5;
  log_level = codes "INFO";
}

accepted : resolve_config whole_numbers ascii namespace.values exporter_env ≡ valid own_config
unfolding resolve_config raw_value parse_port parse_interval parse_log_level parse_text
    parse_required_text shown_row parse_int upper_text strip Dict.get list_eq nat_eq
accepted = refl

abbrev process : Process whole_numbers ascii
process = record {
  read_flags = read_flags;
  listen = λ port. none;
  poll_forever = λ config secrets. shutdown;
}

abbrev logger : Logger
logger = record { level = codes "WARNING"; filters = another 1 ∷ [] }

abbrev prober : ℕ → Outcome (Unit {0})
prober port = passed tt

-- the logger of the configuration
abbrev own_logger : Logger
own_logger =
    configure_logging (codes "INFO") (password_candidates namespace exporter_env)
      (at_start logger namespace exporter_env)

abbrev run : List (Event whole_numbers.Float)
run =
    logged own_logger (settings (codes "localhost", 10011, codes "serveradmin", 5))
    ∷ handles_termination
    ∷ logged own_logger (started 9100)
    ∷ polls own_config (password_candidates namespace exporter_env)
    ∷ logged own_logger stopped
    ∷ []

run_test : (main whole_numbers ascii process logger argv exporter_env).0 ≡ run
unfolding main configured serve overridden_flags store remember resolve_config raw_value parse_port
    parse_interval parse_log_level parse_text parse_required_text shown_row parse_int upper_text
    strip Dict.get Dict.put list_eq nat_eq
run_test = refl

listens :
    Memᴰ
      (logged own_logger (started 9100))
      (main whole_numbers ascii process logger argv exporter_env).0
listens = rw run_test (Memᴰ.tail (Memᴰ.tail (Memᴰ.head refl)))

check-started_example :
    check whole_numbers ascii read_flags decode 7 prober [] proc ≡ answer (prober 9100) 9100
check-started_example =
    check-started whole_numbers ascii process logger own_logger argv exporter_env [] namespace 9100
      decode 7 proc prober parsed listens shown

secrets_test : exporter_secrets whole_numbers ascii read_flags decode 7 [] proc ≡ codes "9100" ∷ []
unfolding exporter_secrets password_candidates secrets_for_redaction effective find_exporter join
    split path_name store remember Dict.get Dict.put list_eq nat_eq
secrets_test = refl

marker :
    IsMarker ascii.is_printable points
      (forms_of (exporter_secrets whole_numbers ascii read_flags decode 7 [] proc))
      b'#'
unfolding escape_control_characters
marker =
    rw secrets_test (record {
      unused = ground arith;
      shown = refl;
      in_range = inl (unfold list_eq nat_eq in refl);
    })

signed_in : LogsInWith whole_numbers ascii read_flags decode 7 [] proc (codes "9100")
signed_in = rw shown (namespace, own_config, parsed, accepted, refl)

main-hides_example :
    (line : Text) × (code : ℕ) × (Healthcheck.main whole_numbers ascii read_flags decode 7 prober []
        proc proc
      ≡ some (line, code))
    × (is_infix (codes "9100") line ≡ false)
main-hides_example =
    main-hides whole_numbers ascii read_flags decode 7 prober [] proc proc (codes "9100") b'#'
      signed_in refl marker

report_test :
    Healthcheck.main whole_numbers ascii read_flags decode 7 prober [] proc proc
    ≡ some (codes "healthy: metrics endpoint on port *censored* answers", 0)
unfolding Healthcheck.main exporter_secrets password_candidates secrets_for_redaction effective
    find_exporter join split path_name store remember resolve_config raw_value parse_port
    parse_interval parse_log_level parse_text parse_required_text shown_row parse_int upper_text
    strip printable show_with Dict.get Dict.put list_eq nat_eq
report_test = refl
