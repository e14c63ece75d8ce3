-- ===== src/Config/Ranges.antt =====
-- config.py: what a configuration that is accepted satisfies.
use teamspeak_prometheus.Base.{
  ℕ, ◌<◌, ◌≡◌, refl, subst, Bool, true, false, ◌&&◌, if◌then◌else◌, Text, is_empty, strip, contains,
  arith, list_eq, nat_eq, Bool-cases, Option-cases, inl, inr,
}
use teamspeak_prometheus.Characters.{ℤ, pos, negsuc, Characters, parse_int, upper_text}
use teamspeak_prometheus.Metrics.{Floats}
use teamspeak_prometheus.Config.{
  Config, ConfigError, interval_out_of_range, unknown_level, Checked, valid, invalid, ◌>>=◌,
  log_levels, Args, Env, raw_value, shown_row, parse_port, in_port_range, parse_interval,
  parse_log_level, parse_text, parse_required_text, resolve_config, host_row, port_row,
  username_row, password_row, metrics_port_row, interval_row, level_row,
}

bind_valid {ℓ κ} :
    {A : Type ℓ} {B : Type κ} (m : Checked A) (f : A → Checked B) {b : B}
    → (m >>= f) ≡ valid b
    → (a : A) × (m ≡ valid a) × (f a ≡ valid b)
bind_valid (valid a) f h = (a, refl, h)
bind_valid (invalid e) f h = cc

valid_inj {ℓ} : {A : Type ℓ} (a b : A) → valid a ≡ valid b → a ≡ b
valid_inj a b h = cc

if_valid {ℓ} :
    {A : Type ℓ} (b : Bool) (a : A) (e : ConfigError) {t : A}
    → (if b then valid a else invalid e) ≡ valid t
    → (b ≡ true) × (a ≡ t)
if_valid true a e {t} h = (refl, valid_inj a t h)
if_valid false a e h = cc

-- What the exporter may rely on.
pub record IsUsable (F : Floats) (c : Config F.Float) : Type 0 where
  pub host : is_empty (strip c.host) ≡ false
  pub username : is_empty (strip c.username) ≡ false
  pub port : (0 < c.port) × (c.port < 65536)
  pub metrics_port : (0 < c.metrics_port) × (c.metrics_port < 65536)
  pub interval :
      (F.at_most (F.of_ℕ 1) c.poll_interval ≡ true)
      × (F.at_most c.poll_interval (F.of_ℕ 86400) ≡ true)
  pub level : contains log_levels c.log_level ≡ true

module _ (F : Floats) (C : Characters) where
  in_port_range_lem :
      (name : Text) (z : ℤ) {n : ℕ} → in_port_range F C name z ≡ valid n → (0 < n) × (n < 65536)
  in_port_range_lem name (pos m) h = ground arith
  in_port_range_lem name (negsuc m) h = cc

  parse_port_lem :
      (name value : Text) {n : ℕ} → parse_port F C name value ≡ valid n → (0 < n) × (n < 65536)
  unfolding parse_port
  parse_port_lem name value {n} h = elim (Option-cases (parse_int C value)) [
    | inl e ↦ let shown = rw (e, parse_port) at h in cc
    | inr (z, e) ↦ in_port_range_lem name z {n = n} (rw (e, parse_port) at h)
  ]

  parse_interval_lem :
      (name value : Text) {t : F.Float}
      → parse_interval F C name value ≡ valid t
      → (F.at_most (F.of_ℕ 1) t ≡ true) × (F.at_most t (F.of_ℕ 86400) ≡ true)
  unfolding parse_interval
  parse_interval_lem name value {t} h = elim (Option-cases (F.parse value)) [
    | inl e ↦ let shown = rw (e, parse_interval) at h in cc
    | inr (v, e) ↦
        let (q, p) =
          if_valid (F.at_most (F.of_ℕ 1) v && F.at_most v (F.of_ℕ 86400)) v
            (interval_out_of_range name value) (rw (e, parse_interval) at h) in
        rw (← p) (ground (arith, q), ground (arith, q))
  ]

  parse_required_text_lem :
      (name value : Text) {t : Text}
      → parse_required_text F C name value ≡ valid t
      → is_empty (strip t) ≡ false
  unfolding parse_required_text
  parse_required_text_lem name value {t} h = elim (Bool-cases (is_empty (strip value))) [
    | inl e ↦ let shown = rw e at h in cc
    | inr e ↦
        let same_text : valid value ≡ valid t = rw e at h in
        subst (λ s. is_empty (strip s) ≡ false) (valid_inj value t same_text) e
  ]

  parse_log_level_lem :
      (name value : Text) {t : Text}
      → parse_log_level F C name value ≡ valid t
      → contains log_levels t ≡ true
  unfolding parse_log_level
  parse_log_level_lem name value {t} h =
      let (e, p) =
        if_valid (contains log_levels (upper_text C value)) (upper_text C value)
          (unknown_level name value) h in
      subst (λ s. contains log_levels s ≡ true) p e

  -- the fields of the configuration are what the parsers make of the raw values
  pub record Parsed (args : Args) (env : Env) (c : Config F.Float) : Type 0 where
    pub host :
        parse_required_text F C (shown_row host_row) (raw_value args env host_row) ≡ valid c.host
    pub port : parse_port F C (shown_row port_row) (raw_value args env port_row) ≡ valid c.port
    pub username :
        parse_required_text F C (shown_row username_row) (raw_value args env username_row)
        ≡ valid c.username
    pub password : raw_value args env password_row ≡ c.password
    pub metrics_port :
        parse_port F C (shown_row metrics_port_row) (raw_value args env metrics_port_row)
        ≡ valid c.metrics_port
    pub interval :
        parse_interval F C (shown_row interval_row) (raw_value args env interval_row)
        ≡ valid c.poll_interval
    pub level :
        parse_log_level F C (shown_row level_row) (raw_value args env level_row) ≡ valid c.log_level

  pub resolve_config-Parsed :
      (args : Args) (env : Env) (c : Config F.Float)
      → resolve_config F C args env ≡ valid c
      → Parsed args env c
  unfolding resolve_config parse_text
  resolve_config-Parsed args env c h =
      let (host, e₁, h₁) =
        bind_valid (parse_required_text F C (shown_row host_row) (raw_value args env host_row)) _
          h in
      let (ts3_port, e₂, h₂) =
        bind_valid (parse_port F C (shown_row port_row) (raw_value args env port_row)) _ h₁ in
      let (username, e₃, h₃) =
        bind_valid
          (parse_required_text F C (shown_row username_row) (raw_value args env username_row)) _
          h₂ in
      let (metrics_port, e₄, h₄) =
        bind_valid
          (parse_port F C (shown_row metrics_port_row) (raw_value args env metrics_port_row)) _
          h₃ in
      let (interval, e₅, h₅) =
        bind_valid (parse_interval F C (shown_row interval_row) (raw_value args env interval_row)) _
          h₄ in
      let (level, e₆, h₆) =
        bind_valid (parse_log_level F C (shown_row level_row) (raw_value args env level_row)) _
          h₅ in
      subst (Parsed args env) (valid_inj _ c h₆) (record {
        host = e₁;
        port = e₂;
        username = e₃;
        password = refl;
        metrics_port = e₄;
        interval = e₅;
        level = e₆;
      })

  -- A configuration that is accepted has a host and a username that are not blank, ports between 1
  -- and 65535, an interval between 1 second and a day and one of the four log levels.
  pub resolve_config-IsUsable :
      (args : Args) (env : Env) (c : Config F.Float)
      → resolve_config F C args env ≡ valid c
      → IsUsable F c
  resolve_config-IsUsable args env c h =
      let parsed = resolve_config-Parsed args env c h in
      record {
        host = parse_required_text_lem _ _ parsed.host;
        username = parse_required_text_lem _ _ parsed.username;
        port = parse_port_lem _ _ parsed.port;
        metrics_port = parse_port_lem _ _ parsed.metrics_port;
        interval = parse_interval_lem _ _ parsed.interval;
        level = parse_log_level_lem _ _ parsed.level;
      }
