-- ===== src/Config/Precedence.antt =====
-- config.py: flags and variables of the same option.
use teamspeak_prometheus.Base.{◌≡◌, ◌≢◌, ◌⊎◌, none, All, arith, list_eq, nat_eq}
use teamspeak_prometheus.Base.Dict
use teamspeak_prometheus.Characters.{Characters}
use teamspeak_prometheus.Metrics.{Floats}
use teamspeak_prometheus.Config.{
  Row, options, Args, Env, raw_value, resolve_config, host_row, port_row, username_row,
  password_row, metrics_port_row, interval_row, level_row,
}

-- Whatever two sets of flags say of a row, it does not matter: the variable is set, or they agree.
abbrev pub Agree : Args → Args → Env → Row → Type 0
Agree args other env row =
    (Dict.get env row.variable ≢ none) ⊎ (Dict.get args row.dest ≡ Dict.get other row.dest)

raw_value-Agree :
    (args other : Args) (env : Env) (row : Row)
    → Agree args other env row
    → raw_value args env row ≡ raw_value other env row
unfolding raw_value
raw_value-Agree args other env row h = ground arith

-- A flag whose variable is set has no influence: two command lines that agree on all other flags
-- give the same configuration, or fail with the same error.
pub resolve_config-Agree :
    (F : Floats) (C : Characters) (args other : Args) (env : Env)
    → All (Agree args other env) options
    → resolve_config F C args env ≡ resolve_config F C other env
unfolding resolve_config
resolve_config-Agree F C args other env
      (host, (port, (user, (pass, (metrics, (interval, (level, _))))))) =
    rw (
      raw_value-Agree args other env host_row host,
      raw_value-Agree args other env port_row port,
      raw_value-Agree args other env username_row user,
      raw_value-Agree args other env password_row pass,
      raw_value-Agree args other env metrics_port_row metrics,
      raw_value-Agree args other env interval_row interval,
      raw_value-Agree args other env level_row level,
    )
