-- ===== src/Healthcheck.antt =====
-- teamspeak_prometheus/healthcheck.py: the running exporter in `/proc`, the port it listens on, and what
-- the healthcheck prints. `argparse`'s reading of the tokens, the decoding of UTF-8 and the request of a
-- URL are parameters.
pub mod Lowest
pub mod Output
use mathlib.Core.Option
use teamspeak_prometheus.Base.{
  ℕ, ◌≡◌, ◌≢◌, refl, Bool, true, false, not, ◌&&◌, ◌||◌, ◌==◌, ltb, leb, if◌then◌else◌, Option,
  none, some, List, [], ◌∷◌, ◌++◌, map, Text, codes, is_empty, split, partition, same, list_eq,
  nat_eq,
}
use teamspeak_prometheus.Base.Dict
use teamspeak_prometheus.Characters.{Characters}
use teamspeak_prometheus.Metrics.{Floats}
use teamspeak_prometheus.Redaction.{secrets_for_redaction, printable}
use teamspeak_prometheus.Config.{Checked, valid, invalid, Config, Env, resolve_config}
use teamspeak_prometheus.Cli.{Namespace, no_flags, parse_args, password_candidates}
use teamspeak_prometheus.ServerQuery.{show_ℕ}

-- A numbered directory of `/proc`, and its files, `none` where a read raises an `OSError`.
pub record Process : Type 0 where
  pub pid : ℕ
  pub cmdline : Option (List ℕ)
  pub environ : Option (List ℕ)

-- `/proc`, without the entries whose names are no numbers; `none` if it cannot be listed
abbrev pub Proc : Type 0
Proc = Option (List Process)

pub record Exporter : Type 0 where
  pub argv : List Text
  pub env : Option Env

-- A `HealthcheckError` carries its message.
pub data Outcome {ℓ} (A : Type ℓ) : Type ℓ where
  passed : A → Outcome A
  failed : Text → Outcome A

infixl 5 ◌>>=◌
abbrev ◌>>=◌ {ℓ κ} : {A : Type ℓ} {B : Type κ} → Outcome A → (A → Outcome B) → Outcome B
passed a >>= f = f a
failed message >>= f = failed message

-- the last component of a path that is neither empty nor `.`
unfoldable pub last_component : Text → List Text → Text
last_component last [] = last
last_component last (part ∷ parts) =
    let skipped = last_component last parts in
    let taken = last_component part parts in
    if is_empty part || same part (codes ".") then skipped else taken

-- `Path(arg).name`
unfoldable pub path_name : Text → Text
unfolding last_component split
path_name arg = last_component [] (split b'/' arg)

-- `fields.pop()` of a last field that is empty
unfoldable pub without_last_empty : List Text → List Text
without_last_empty [] = []
without_last_empty (field ∷ []) = if is_empty field then [] else field ∷ []
without_last_empty (field ∷ next ∷ fields) = field ∷ without_last_empty (next ∷ fields)

-- the arguments after the first one that names the script
unfoldable pub after_script : List Text → Option (List Text)
unfolding path_name
after_script [] = none
after_script (arg ∷ args) =
    let later = after_script args in
    if same (path_name arg) (codes "app.py") then some args else later

-- `sorted(entries, key=lambda e: int(e.name))`
unfoldable pub insert_by_pid : Process → List Process → List Process
insert_by_pid p [] = p ∷ []
insert_by_pid p (q ∷ sorted) =
    if leb p.pid q.pid then p ∷ q ∷ sorted else q ∷ insert_by_pid p sorted

unfoldable pub sort_by_pid : List Process → List Process
unfolding insert_by_pid
sort_by_pid [] = []
sort_by_pid (p ∷ entries) = insert_by_pid p (sort_by_pid entries)

-- the entries of `dict(field.partition('=')[::2] for … if '=' in field)`
unfoldable pub variables : Env → List Text → Env
unfolding partition
variables env [] = env
variables env (field ∷ fields) =
    let (name, found, value) = partition b'=' field in
    let others = variables env fields in
    let more = variables (Dict.put env name value) fields in if found then more else others

module _ (decode : List ℕ → Text) where
  -- `_nul_separated`
  unfoldable pub nul_separated : List ℕ → List Text
  unfolding split without_last_empty
  nul_separated raw = without_last_empty (split 0 (decode raw))

  -- `_environment`
  unfoldable pub environment : Process → Option Env
  unfolding nul_separated variables
  environment p = Option.map (λ raw. variables [] (nul_separated raw)) p.environ

  -- what the loop of `find_exporter` takes of an entry: `none` if it goes on
  unfoldable pub exporter_of : Process → Option Exporter
  unfolding nul_separated after_script environment
  exporter_of p = elim p.cmdline [
    | none ↦ none
    | some raw ↦
        Option.map (λ argv. record { argv = argv; env = environment p })
          (after_script (nul_separated raw))
  ]

  module _ (own_pid : ℕ) where
    unfoldable pub first_exporter : List Process → Option Exporter
    unfolding exporter_of
    first_exporter [] = none
    first_exporter (p ∷ entries) =
        let later = first_exporter entries in
        if p.pid == own_pid then later else elim (exporter_of p) [ none ↦ later | some e ↦ some e ]

    unfoldable pub find_exporter : Proc → Option Exporter
    unfolding first_exporter sort_by_pid
    find_exporter none = none
    find_exporter (some entries) = first_exporter (sort_by_pid entries)

    unfoldable pub exporter_argv : Proc → Option (List Text)
    unfolding find_exporter
    exporter_argv proc = Option.map (λ e. e.argv) (find_exporter proc)

    abbrev running_with : Env → Option Env → Env
    running_with env none = env
    running_with env (some own) = own

    unfoldable pub effective : Env → Proc → List Text × Env
    unfolding find_exporter
    effective env proc = elim (find_exporter proc) [
      | none ↦ ([], env)
      | some e ↦ (e.argv, running_with env e.env)
    ]

abbrev pub port_of : {Float : Type 0} → Checked (Config Float) → Outcome ℕ
port_of (invalid e) = failed (codes "the exporter configuration is not valid")
port_of (valid c) = passed c.metrics_port

-- `probe`, where `request` gives the text of an `OSError`, if the request raises one
unfoldable pub probe : (Text → Option Text) → ℕ → Outcome (Unit {0})
probe request port =
    let url = codes "http://127.0.0.1:" ++ show_ℕ port ++ codes "/metrics" in
    elim (request url) [
      | none ↦ passed tt
      | some text ↦ failed (url ++ codes " did not answer: " ++ text)
    ]

abbrev pub or_no_flags : Option Namespace → Namespace
or_no_flags none = no_flags
or_no_flags (some ns) = ns

abbrev pub report : Outcome ℕ → Text
report (passed port) = codes "healthy: metrics endpoint on port " ++ show_ℕ port ++ codes " answers"
report (failed message) = codes "unhealthy: " ++ message

abbrev pub exit_code : Outcome ℕ → ℕ
exit_code (passed port) = 0
exit_code (failed message) = 1

module _ (F : Floats) (C : Characters)
    (read_flags : List Text → List Text → Option (List (Text × Text))) where
  unfoldable pub metrics_port : List Text → Env → Outcome ℕ
  metrics_port argv env = elim (parse_args read_flags argv) [
    | none ↦ failed (codes "the exporter command line is not valid")
    | some ns ↦ port_of (resolve_config F C ns.values env)
  ]

  module _ (decode : List ℕ → Text) (own_pid : ℕ) where
    unfoldable pub check : (ℕ → Outcome (Unit {0})) → Env → Proc → Outcome ℕ
    unfolding effective metrics_port
    check prober env proc = do
      let (argv, exporter_env) = effective decode own_pid env proc
      port ← metrics_port argv exporter_env
      _ ← prober port
      passed port

    -- the passwords of `exporter_secrets`, before `secrets_for_redaction` orders them
    unfoldable pub passwords : Env → Proc → List Text
    unfolding effective parse_args password_candidates
    passwords env proc =
        let (argv, exporter_env) = effective decode own_pid env proc in
        password_candidates (or_no_flags (parse_args read_flags argv)) exporter_env
        ++ password_candidates no_flags env

    unfoldable pub exporter_secrets : Env → Proc → List Text
    unfolding passwords secrets_for_redaction
    exporter_secrets env proc = secrets_for_redaction (passwords env proc)

    -- `main`: the line it prints and the exit code. `/proc` is read twice, once for the secrets and once
    -- for the check, and may have changed in between. `none` is a `StopIteration` of `printable`.
    unfoldable pub main : (ℕ → Outcome (Unit {0})) → Env → Proc → Proc → Option (Text × ℕ)
    unfolding exporter_secrets check
    main prober env before after =
        let secrets = exporter_secrets env before in
        let outcome = check prober env after in
        Option.map (λ line. (line, exit_code outcome))
          (printable C.is_printable (report outcome) secrets)
