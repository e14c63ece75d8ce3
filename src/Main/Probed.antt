-- ===== src/Main/Probed.antt =====
-- main.py and healthcheck.py: the port that is bound, and the one that is probed.
use mathlib.Core.List.{Memᴰ}
use teamspeak_prometheus.Base.{
  ℕ, ◌≡◌, refl, some, List, [], ◌∷◌, Text, map, All, All-append, All-at, Option-cases, inl, inr,
}
use teamspeak_prometheus.Characters.{Characters}
use teamspeak_prometheus.Metrics.{Floats}
use teamspeak_prometheus.Config.{
  Config, Checked, valid, invalid, Env, resolve_config, overridden_flags,
}
use teamspeak_prometheus.Cli.{Namespace, parse_args, password_candidates}
use teamspeak_prometheus.Logs.{Logger, configure_logging}
use teamspeak_prometheus.Healthcheck.{Proc, Outcome, passed, failed, effective, metrics_port, check}
use teamspeak_prometheus.Healthcheck.Output.{Outcome-cases}
use teamspeak_prometheus.Main.{
  Message, Event, logged, started, Stop, Process, at_start, after_polling, serve, configured, main,
}

-- what the check comes to if it probes the port
abbrev pub answer : Outcome (Unit {0}) → ℕ → Outcome ℕ
answer (passed _) port = passed port
answer (failed message) port = failed message

module _ (F : Floats) (C : Characters) (P : Process F C) where
  -- a line that says that a port is bound names the port of the configuration
  abbrev Names : Checked (Config F.Float) → Event F.Float → Type 0
  Names r (logged logger (started port)) =
      (config : Config F.Float) × (r ≡ valid config) × (config.metrics_port ≡ port)
  Names r _ = Unit

  module _ (r : Checked (Config F.Float)) where
    All-warnings :
        (logger : Logger) (flags : List Text)
        → All (Names r) (map (λ flag. logged logger (Message.ignoring flag)) flags)
    All-warnings logger [] = tt
    All-warnings logger (flag ∷ flags) = (tt, All-warnings logger flags)

    after_polling-Names :
        (logger : Logger) (stop : Stop) → All (Names r) (after_polling F C logger stop).0
    after_polling-Names logger Stop.finished = tt
    after_polling-Names logger Stop.keyboard_interrupt = (tt, tt)
    after_polling-Names logger Stop.shutdown = (tt, tt)
    after_polling-Names logger Stop.crashed = tt

    serve-Names :
        (logger : Logger) (config : Config F.Float) (secrets : List Text)
        → r ≡ valid config
        → All (Names r) (serve F C P logger config secrets).0
    unfolding serve
    serve-Names logger config secrets e = elim (Option-cases (P.listen config.metrics_port)) [
      | inr (text, q) ↦ rw (serve, q) (tt, tt)
      | inl q ↦
          rw (serve, q)
            ((config, e, refl), (tt, after_polling-Names logger (P.poll_forever config secrets)))
    ]

  configured-Names :
      (logger : Logger) (ns : Namespace) (env : Env) (secrets : List Text)
      (r : Checked (Config F.Float))
      → All (Names r) (configured F C P logger ns env secrets r).0
  unfolding configured
  configured-Names logger ns env secrets (invalid e) = (tt, tt)
  configured-Names logger ns env secrets (valid config) =
      let own = configure_logging config.log_level secrets logger in
      let flags = overridden_flags F C ns.values env in
      All-append (Names (valid config)) _ (serve F C P own config secrets).0
        (All-append (Names (valid config)) (map (λ flag. logged own (Message.ignoring flag)) flags)
          _ (All-warnings (valid config) own flags) (tt, (tt, tt)))
        (serve-Names (valid config) own config secrets refl)

  -- If the exporter has logged that it listens on a port, and `/proc` shows the arguments and the
  -- variables that it was started with, the healthcheck probes this port, whatever variables
  -- the healthcheck itself has.
  pub check-started :
      (start logger : Logger) (argv : List Text) (env own : Env) (ns : Namespace) (port : ℕ)
      (decode : List ℕ → Text) (own_pid : ℕ) (proc : Proc) (prober : ℕ → Outcome (Unit {0}))
      → parse_args P.read_flags argv ≡ some ns
      → Memᴰ (logged logger (started port)) (main F C P start argv env).0
      → effective decode own_pid own proc ≡ (argv, env)
      → check F C P.read_flags decode own_pid prober own proc ≡ answer (prober port) port
  unfolding main check metrics_port
  check-started start logger argv env own ns port decode own_pid proc prober parsed listens shown =
      let named : All (Names (resolve_config F C ns.values env)) (main F C P start argv env).0 =
        rw (main, parsed)
          (configured-Names (at_start start ns env) ns env (password_candidates ns env)
            (resolve_config F C ns.values env)) in
      let (config, accepted, same_port) =
        All-at (Names (resolve_config F C ns.values env)) listens named in
      let found : metrics_port F C P.read_flags argv env ≡ passed port =
        rw (metrics_port, parsed, accepted, same_port) refl in
      elim (Outcome-cases (prober port)) [
        | inl (_, q) ↦ rw (check, shown, found, q) refl
        | inr (m, q) ↦ rw (check, shown, found, q) refl
      ]
