-- ===== src/Tests/Settings.antt =====
-- The configuration at concrete flags and variables.
use teamspeak_prometheus.Base.{◌≡◌, refl, codes, All, arith, [], ◌∷◌, list_eq, nat_eq, strip}
use teamspeak_prometheus.Base.Dict
use teamspeak_prometheus.Characters.{ascii, parse_int, upper_text}
use teamspeak_prometheus.Config.{
  Args, Env, valid, resolve_config, raw_value, shown_row, parse_port, parse_interval,
  parse_log_level, parse_text, parse_required_text, overridden_flags, options,
}
use teamspeak_prometheus.Config.Precedence.{Agree, resolve_config-Agree}
use teamspeak_prometheus.Config.Ranges.{IsUsable, resolve_config-IsUsable}
use teamspeak_prometheus.Tests.Fixture.{whole_numbers, config}

abbrev args : Args
args = (codes "ts3host", codes "a") ∷ (codes "ts3username", codes "u") ∷ []

abbrev other : Args
other = (codes "ts3host", codes "b") ∷ (codes "ts3username", codes "u") ∷ []

abbrev env : Env
env =
    (codes "TEAMSPEAK_HOST", codes "h")
    ∷ (codes "TEAMSPEAK_PASSWORD", codes "pass")
    ∷ (codes "TEAMSPEAK_POLL_INTERVAL", codes "5")
    ∷ []

args-Agree : All (Agree args other env) options
unfolding Dict.get list_eq nat_eq
args-Agree = ground arith

resolve_config-Agree_example :
    resolve_config whole_numbers ascii args env ≡ resolve_config whole_numbers ascii other env
resolve_config-Agree_example = resolve_config-Agree whole_numbers ascii args other env args-Agree

resolved : resolve_config whole_numbers ascii args env ≡ valid config
unfolding resolve_config raw_value shown_row parse_port parse_interval parse_log_level parse_text
    parse_required_text strip parse_int upper_text Dict.get list_eq nat_eq
resolved = refl

resolve_config-IsUsable_example : IsUsable whole_numbers config
resolve_config-IsUsable_example =
    resolve_config-IsUsable whole_numbers ascii args env config resolved

overridden_host_test :
    overridden_flags whole_numbers ascii args env ≡ codes "--ts3host (TEAMSPEAK_HOST is set)" ∷ []
unfolding overridden_flags parse_required_text strip Dict.get list_eq nat_eq
overridden_host_test = refl
