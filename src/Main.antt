-- ===== src/Main.antt =====
-- teamspeak_prometheus/main.py: startup and shutdown. Binding the port and polling until something is
-- raised are parameters, as is `argparse`'s reading of the tokens.
pub mod Endings
pub mod Censored
pub mod Probed
use teamspeak_prometheus.Base.{
  ℕ, ◌≡◌, refl, Option, none, some, List, [], ◌∷◌, ◌++◌, map, Text, codes,
}
use teamspeak_prometheus.Characters.{Characters}
use teamspeak_prometheus.Metrics.{Floats}
use teamspeak_prometheus.Config.{
  Config, ConfigError, Checked, valid, invalid, Env, resolve_config, overridden_flags,
  settings_arguments,
}
use teamspeak_prometheus.Cli.{Namespace, no_flags, parse_args, password_candidates}
use teamspeak_prometheus.Logs.{Logger, configure_logging}

-- The calls of `log`, with their arguments; `settings` is that of `log_settings`.
pub data Message (Float : Type 0) : Type 0 where
  invalid_configuration : ConfigError → Message Float
  ignoring : Text → Message Float
  settings : Text × ℕ × Text × Float → Message Float
  cannot_listen : ℕ → Text → Message Float
  started : ℕ → Message Float
  stopped : Message Float

-- What `main` does, in its order. A line is logged through the logger as it is then.
pub data Event (Float : Type 0) : Type 0 where
  logged : Logger → Message Float → Event Float
  handles_termination : Event Float
  polls : Config Float → List Text → Event Float

-- How `poll_forever` ends: by a return, by `KeyboardInterrupt`, by `Shutdown`, or by another exception.
pub data Stop : Type 0 where
  finished keyboard_interrupt shutdown crashed : Stop

-- The exit code, the `SystemExit` of `argparse`, or an exception.
pub data Ending : Type 0 where
  exits : ℕ → Ending
  parser_exits : Ending
  raises : Ending

-- the logger once the arguments are read
abbrev pub at_start : Logger → Namespace → Env → Logger
at_start logger ns env =
    let first = configure_logging (codes "INFO") (password_candidates no_flags env) logger in
    configure_logging (codes "INFO") (password_candidates ns env) first

module _ (F : Floats) (C : Characters) where
  -- the parts of the process that `main` calls
  pub record Process : Type 0 where
    pub read_flags : List Text → List Text → Option (List (Text × Text))
    pub listen : ℕ → Option Text
    pub poll_forever : Config F.Float → List Text → Stop

  -- what becomes of `serve` in `main`
  abbrev pub after_polling : Logger → Stop → List (Event F.Float) × Ending
  after_polling logger finished = ([], exits 0)
  after_polling logger keyboard_interrupt = (logged logger stopped ∷ [], exits 0)
  after_polling logger shutdown = (logged logger stopped ∷ [], exits 0)
  after_polling logger crashed = ([], raises)

  abbrev pub preceded :
      List (Event F.Float) → List (Event F.Float) × Ending → List (Event F.Float) × Ending
  preceded events (more, ending) = (events ++ more, ending)

  module _ (P : Process) where
    -- `serve`, and the `except` of `main` around it
    unfoldable pub serve : Logger → Config F.Float → List Text → List (Event F.Float) × Ending
    serve logger config secrets = elim (P.listen config.metrics_port) [
      | some text ↦ (logged logger (cannot_listen config.metrics_port text) ∷ [], exits 1)
      | none ↦
          preceded (logged logger (started config.metrics_port) ∷ polls config secrets ∷ [])
            (after_polling logger (P.poll_forever config secrets))
    ]

    -- `main` from the configuration on
    unfoldable pub configured :
        Logger
        → Namespace
        → Env
        → List Text
        → Checked (Config F.Float)
        → List (Event F.Float) × Ending
    unfolding serve configure_logging overridden_flags
    configured logger ns env secrets (invalid e) =
        (logged logger (invalid_configuration e) ∷ [], exits 2)
    configured logger ns env secrets (valid config) =
        let own = configure_logging config.log_level secrets logger in
        preceded
          (map (λ flag. logged own (ignoring flag)) (overridden_flags F C ns.values env)
            ++ logged own (settings (settings_arguments config)) ∷ handles_termination ∷ [])
          (serve own config secrets)

    unfoldable pub main : Logger → List Text → Env → List (Event F.Float) × Ending
    unfolding configured configure_logging parse_args password_candidates resolve_config
    main logger argv env = elim (parse_args P.read_flags argv) [
      | none ↦ ([], parser_exits)
      | some ns ↦
          configured (at_start logger ns env) ns env (password_candidates ns env)
            (resolve_config F C ns.values env)
    ]
