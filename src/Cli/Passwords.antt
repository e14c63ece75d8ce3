-- ===== src/Cli/Passwords.antt =====
-- cli.py and config.py: the password in use, and those that are censored.
use teamspeak_prometheus.Base.{
  same_eq, ◌≡◌, inl, inr, refl, true, false, ◌||◌, Option, none, some, List, [], ◌∷◌, ◌++◌, Text,
  codes, arith, contains, contains-append, same, same_refl, Bool-cases, Option-cases, is_empty, sym,
  ◌∙◌, ap, subst, list_eq, nat_eq,
}
use mathlib.Core.Option
use mathlib.Core.Option.{none-ne-some}
use teamspeak_prometheus.Base.Dict
use teamspeak_prometheus.Characters.{Characters}
use teamspeak_prometheus.Metrics.{Floats}
use teamspeak_prometheus.Config.{
  Config, Env, valid, or_default, password_row, raw_value, resolve_config,
}
use teamspeak_prometheus.Config.Ranges.{resolve_config-Parsed}
use teamspeak_prometheus.Cli.{
  Namespace, store, remember, namespace_of, no_flags, flag_names, parse_args, given_values,
  non_empty, password_candidates, one_value, or_nothing,
}

abbrev password_dest : Text
password_dest = codes "ts3password"

-- A password that is stored was remembered too.
abbrev Remembers : Namespace → Type 0
Remembers ns =
    (v : Text)
    → Dict.get ns.values password_dest ≡ some v
    → contains (or_nothing (Dict.get ns.given password_dest)) v ≡ true

some-injective : {A : Type 0} (a b : A) → some a ≡ some b → a ≡ b
some-injective a b e = cc

contains-last : (texts : List Text) (v : Text) → contains (texts ++ v ∷ []) v ≡ true
contains-last texts v = ground (arith, contains-append texts (v ∷ []) v, same_refl v)

remember-Remembers :
    (ns : Namespace) (dest value v : Text)
    → same dest password_dest ≡ true
    → Dict.get (remember dest value ns).values password_dest ≡ some v
    → contains (or_nothing (Dict.get (remember dest value ns).given password_dest)) v ≡ true
unfolding remember
remember-Remembers ns dest value v p e =
    let texts = or_nothing (Dict.get ns.given dest) in
    let q : value ≡ v =
      some-injective value v
        (sym (Dict.get-put ns.values dest password_dest value ∙ rw p refl) ∙ e) in
    rw (Dict.get-put ns.given dest password_dest (texts ++ value ∷ []), p, sym q)
      (contains-last texts value)

store-Remembers : (ns : Namespace) (flag : Text × Text) → Remembers ns → Remembers (store ns flag)
unfolding store
store-Remembers ns (dest, value) h v e = elim (Bool-cases (same dest password_dest)) [
  | inl p ↦
      let q : store ns (dest, value) ≡ remember dest value ns = rw (store, p) refl in
      rw q (
        remember-Remembers ns dest value v p
          (ap (λ n. Dict.get n.values password_dest) (sym q) ∙ e))
  | inr p ↦
      let q : store ns (dest, value) ≡ record ns { values = Dict.put ns.values dest value } =
        rw (store, p) refl in
      rw q (
        h v (
          sym (Dict.get-put ns.values dest password_dest value ∙ rw p refl)
          ∙ ap (λ n. Dict.get n.values password_dest) (sym q)
          ∙ e))
]

namespace_of-Remembers :
    (ns : Namespace) (flags : List (Text × Text)) → Remembers ns → Remembers (namespace_of ns flags)
unfolding namespace_of
namespace_of-Remembers ns [] h = h
namespace_of-Remembers ns (flag ∷ flags) h =
    namespace_of-Remembers (store ns flag) flags (store-Remembers ns flag h)

no_flags-Remembers : Remembers no_flags
unfolding Dict.get
no_flags-Remembers v e = cc

contains-non_empty :
    (texts : List Text) (v : Text)
    → is_empty v ≡ false
    → contains texts v ≡ true
    → contains (non_empty texts) v ≡ true
unfolding non_empty
contains-non_empty [] v filled h = absurd (ground arith)
contains-non_empty (t ∷ texts) v filled h = elim (Bool-cases (same v t)) [
  | inl e ↦ let q = same_eq v t e in rw (non_empty, sym q, filled, same_refl v) refl
  | inr e ↦ ground (arith, e, h, contains-non_empty texts v filled)
]

contains-one_value : (v : Text) → is_empty v ≡ false → contains (one_value (some v)) v ≡ true
contains-one_value v filled = rw (filled, same_refl v) refl

contains-given_values :
    (ns : Namespace) (v : Text)
    → Remembers ns
    → Dict.get ns.values password_dest ≡ some v
    → contains (given_values ns password_dest) v ≡ true
unfolding given_values
contains-given_values ns v h e = elim (Option-cases (Dict.get ns.given password_dest)) [
  | inl q ↦ absurd (ground (arith, q, h v e))
  | inr (vs, q) ↦ rw (given_values, q) (rw q at (h v e))
]

contains-or :
    (variable flag : Option Text) (given : List Text) (v : Text)
    → (flag ≡ some v → contains given v ≡ true)
    → or_default variable (or_default flag []) ≡ v
    → is_empty v ≡ false
    → (contains given v || contains (one_value variable) v) ≡ true
contains-or none none given v h e filled = absurd (ground (arith, filled, ap is_empty e))
contains-or none (some w) given v h e filled = ground (arith, h (ap some e))
contains-or (some w) flag given v h e filled = rw e (ground (arith, contains-one_value v filled))

-- the value in use, if it is not empty
pub contains-password_candidates :
    (ns : Namespace) (env : Env) (v : Text)
    → Remembers ns
    → raw_value ns.values env password_row ≡ v
    → is_empty v ≡ false
    → contains (password_candidates ns env) v ≡ true
unfolding password_candidates raw_value
contains-password_candidates ns env v h e filled =
    let given = given_values ns password_dest in
    let variable = Dict.get env (codes "TEAMSPEAK_PASSWORD") in
    contains-non_empty (given ++ one_value variable) v filled (
      contains-append given (one_value variable) v
      ∙ contains-or variable (Dict.get ns.values password_dest) given v
          (contains-given_values ns v h) e filled)

pub parse_args-Remembers :
    (read_flags : List Text → List Text → Option (List (Text × Text))) (argv : List Text)
    (ns : Namespace)
    → parse_args read_flags argv ≡ some ns
    → Remembers ns
unfolding parse_args
parse_args-Remembers read_flags argv ns e = elim (Option-cases (read_flags flag_names argv)) [
  | inl q ↦ absurd (none-ne-some ns (ap (Option.map (namespace_of no_flags)) (sym q) ∙ e))
  | inr (flags, q) ↦
      subst Remembers
        (some-injective (namespace_of no_flags flags) ns
          (ap (Option.map (namespace_of no_flags)) (sym q) ∙ e))
        (namespace_of-Remembers no_flags flags no_flags-Remembers)
]

-- The password that the exporter logs in with is among the passwords that are censored, if it is not
-- empty, however often and in whatever order `--ts3password` and the other flags are given, and
-- whether the flag or the variable decides.
pub password-IsCandidate :
    (F : Floats) (C : Characters) (read_flags : List Text → List Text → Option (List (Text × Text)))
    (argv : List Text) (ns : Namespace) (env : Env) (c : Config F.Float)
    → parse_args read_flags argv ≡ some ns
    → resolve_config F C ns.values env ≡ valid c
    → is_empty c.password ≡ false
    → contains (password_candidates ns env) c.password ≡ true
password-IsCandidate F C read_flags argv ns env c parsed accepted filled =
    contains-password_candidates ns env c.password (parse_args-Remembers read_flags argv ns parsed)
      (resolve_config-Parsed F C ns.values env c accepted).password filled
