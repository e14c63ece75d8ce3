-- ===== src/Config.antt =====
-- teamspeak_prometheus/config.py: one table of options, flags and environment. Raw values are the
-- texts that the parsers take `str` of.
pub mod Precedence
pub mod Ranges
use teamspeak_prometheus.Base.{
  ℕ, suc, ◌-◌, ◌<◌, ◌≡◌, refl, Bool, true, false, not, ◌&&◌, ◌==◌, leb, ltb, if◌then◌else◌, Option,
  none, some, List, [], ◌∷◌, ◌++◌, Text, codes, is_empty, strip, same, contains, list_eq, nat_eq,
}
use teamspeak_prometheus.Base.Dict
use teamspeak_prometheus.Base.Dict.{Dict}
use teamspeak_prometheus.Characters.{ℤ, pos, negsuc, Characters, parse_int, upper_text}
use teamspeak_prometheus.Metrics.{Floats}

-- `Config`
pub record Config (Float : Type 0) : Type 0 where
  pub host : Text
  pub port : ℕ
  pub username : Text
  pub password : Text
  pub metrics_port : ℕ
  pub poll_interval : Float
  pub log_level : Text

-- The messages of `ExporterError`, with what they quote.
pub data ConfigError : Type 0 where
  not_a_port : Text → Text → ConfigError
  port_out_of_range : Text → ℤ → ConfigError
  not_a_number : Text → Text → ConfigError
  interval_out_of_range : Text → Text → ConfigError
  unknown_level : Text → Text → ConfigError
  empty_text : Text → ConfigError

pub data Checked {ℓ} (A : Type ℓ) : Type ℓ where
  valid : A → Checked A
  invalid : ConfigError → Checked A

infixl 5 ◌>>=◌
abbrev pub ◌>>=◌ {ℓ κ} : {A : Type ℓ} {B : Type κ} → Checked A → (A → Checked B) → Checked B
valid a >>= f = f a
invalid e >>= f = invalid e

abbrev pub log_levels : List Text
log_levels = codes "DEBUG" ∷ codes "INFO" ∷ codes "WARNING" ∷ codes "ERROR" ∷ []

-- the parsers of the table, by name
pub data Parser : Type 0 where
  required_text port text interval log_level : Parser

-- a parsed value
pub data Setting (Float : Type 0) : Type 0 where
  a_text : Text → Setting Float
  a_number : ℕ → Setting Float
  a_float : Float → Setting Float

-- a row of `_OPTIONS`, the default as `str` gives it
pub record Row : Type 0 where
  pub dest : Text
  pub variable : Text
  pub default : Text
  pub parser : Parser

abbrev pub host_row : Row
host_row = record {
  dest = codes "ts3host";
  variable = codes "TEAMSPEAK_HOST";
  default = codes "localhost";
  parser = required_text;
}

abbrev pub port_row : Row
port_row = record {
  dest = codes "ts3port";
  variable = codes "TEAMSPEAK_PORT";
  default = codes "10011";
  parser = port;
}

abbrev pub username_row : Row
username_row = record {
  dest = codes "ts3username";
  variable = codes "TEAMSPEAK_USERNAME";
  default = codes "serveradmin";
  parser = required_text;
}

abbrev pub password_row : Row
password_row = record {
  dest = codes "ts3password";
  variable = codes "TEAMSPEAK_PASSWORD";
  default = [];
  parser = text;
}

abbrev pub metrics_port_row : Row
metrics_port_row = record {
  dest = codes "metricsport";
  variable = codes "METRICS_PORT";
  default = codes "8000";
  parser = port;
}

abbrev pub interval_row : Row
interval_row = record {
  dest = codes "pollinterval";
  variable = codes "TEAMSPEAK_POLL_INTERVAL";
  default = codes "5.0";
  parser = interval;
}

abbrev pub level_row : Row
level_row = record {
  dest = codes "loglevel";
  variable = codes "LOG_LEVEL";
  default = codes "INFO";
  parser = log_level;
}

-- `_OPTIONS`
abbrev pub options : List Row
options =
    host_row ∷ port_row ∷ username_row ∷ password_row ∷ metrics_port_row ∷ interval_row ∷ level_row
    ∷ []

-- `argparse.Namespace`, where an unset flag is absent, and the environment
abbrev pub Args : Type 0
Args = Dict Text Text

abbrev pub Env : Type 0
Env = Dict Text Text

abbrev pub or_default : Option Text → Text → Text
or_default none t = t
or_default (some s) t = s

-- `env.get(variable, default if flag is None else flag)`
unfoldable pub raw_value : Args → Env → Row → Text
raw_value args env row =
    or_default (Dict.get env row.variable) (or_default (Dict.get args row.dest) row.default)

-- `f'{variable} (--{dest})'`
unfoldable pub shown_row : Row → Text
shown_row row = row.variable ++ codes " (--" ++ row.dest ++ codes ")"

module _ (F : Floats) (C : Characters) where
  open F use {Float, parse, of_ℕ, at_most, equal}

  -- `_port`
  abbrev in_port_range : Text → ℤ → Checked ℕ
  in_port_range name (pos n) =
      if ltb 0 n && ltb n 65536 then valid n else invalid (port_out_of_range name (pos n))
  in_port_range name (negsuc n) = invalid (port_out_of_range name (negsuc n))

  unfoldable pub parse_port : Text → Text → Checked ℕ
  parse_port name value = elim (parse_int C value) [
    | none ↦ invalid (not_a_port name value)
    | some z ↦ in_port_range name z
  ]

  -- `_interval`
  unfoldable pub parse_interval : Text → Text → Checked Float
  parse_interval name value = elim (parse value) [
    | none ↦ invalid (not_a_number name value)
    | some t ↦
        if at_most (of_ℕ 1) t && at_most t (of_ℕ 86400)
        then valid t
        else invalid (interval_out_of_range name value)
  ]

  -- `_log_level`
  unfoldable pub parse_log_level : Text → Text → Checked Text
  parse_log_level name value =
      let level = upper_text C value in
      if contains log_levels level then valid level else invalid (unknown_level name value)

  -- `_text`
  unfoldable pub parse_text : Text → Text → Checked Text
  parse_text name value = valid value

  -- `_required_text`
  unfoldable pub parse_required_text : Text → Text → Checked Text
  parse_required_text name value =
      if is_empty (strip value) then invalid (empty_text name) else valid value

  -- a row's parser
  unfoldable pub parse_setting : Parser → Text → Text → Checked (Setting Float)
  unfolding parse_port parse_interval parse_log_level parse_text parse_required_text
  parse_setting required_text name value = do t ← parse_required_text name value; valid (a_text t)
  parse_setting port name value = do n ← parse_port name value; valid (a_number n)
  parse_setting text name value = do t ← parse_text name value; valid (a_text t)
  parse_setting interval name value = do t ← parse_interval name value; valid (a_float t)
  parse_setting log_level name value = do t ← parse_log_level name value; valid (a_text t)

  -- `resolve_config`: the rows in the order of the table, then `Config(**values)`
  unfoldable pub resolve_config : Args → Env → Checked (Config Float)
  resolve_config args env = do
    host ← parse_required_text (shown_row host_row) (raw_value args env host_row)
    ts3_port ← parse_port (shown_row port_row) (raw_value args env port_row)
    username ← parse_required_text (shown_row username_row) (raw_value args env username_row)
    password ← parse_text (shown_row password_row) (raw_value args env password_row)
    metrics_port ← parse_port (shown_row metrics_port_row) (raw_value args env metrics_port_row)
    poll_interval ← parse_interval (shown_row interval_row) (raw_value args env interval_row)
    level ← parse_log_level (shown_row level_row) (raw_value args env level_row)
    valid (record {
      host = host;
      port = ts3_port;
      username = username;
      password = password;
      metrics_port = metrics_port;
      poll_interval = poll_interval;
      log_level = level;
    })

  -- `==` of two parsed values of one parser
  abbrev same_setting : Setting Float → Setting Float → Bool
  same_setting (a_text s) (a_text t) = same s t
  same_setting (a_number m) (a_number n) = m == n
  same_setting (a_float a) (a_float b) = equal a b
  same_setting _ _ = false

  -- whether the flag differs from the variable; an invalid one of the two counts as different
  abbrev differs : Checked (Setting Float) → Checked (Setting Float) → Bool
  differs (valid a) (valid b) = not (same_setting a b)
  differs _ _ = true

  unfoldable pub is_overridden : Args → Env → Row → Bool
  unfolding parse_setting
  is_overridden args env row = elim (Dict.get args row.dest) [
    | none ↦ false
    | some flag ↦ elim (Dict.get env row.variable) [
      | none ↦ false
      | some set ↦
          differs (parse_setting row.parser row.variable flag)
            (parse_setting row.parser row.variable set)
    ]
  ]

  -- `overridden_flags`, with the loop over the rows left
  unfoldable pub overridden_rows : Args → Env → List Row → List Text
  overridden_rows args env [] = []
  overridden_rows args env (row ∷ rows) =
      let rest = overridden_rows args env rows in
      if is_overridden args env row
      then (codes "--" ++ row.dest ++ codes " (" ++ row.variable ++ codes " is set)") ∷ rest
      else rest

  unfoldable pub overridden_flags : Args → Env → List Text
  unfolding overridden_rows is_overridden
  overridden_flags args env = overridden_rows args env options

-- `settings_arguments`, what the banner of the log shows
abbrev pub settings_arguments : {Float : Type 0} → Config Float → Text × ℕ × Text × Float
settings_arguments config = (config.host, config.port, config.username, config.poll_interval)
