-- ===== src/Healthcheck/Output.antt =====
-- healthcheck.py: the line that it prints, and its exit code.
use teamspeak_prometheus.Base.{
  All-contains, ℕ, ◌≡◌, ◌≢◌, ◌⊎◌, inl, inr, refl, true, false, Option, some, List, Text, is_infix,
  is_empty, contains, contains-append, All, All-append_left, sym, ◌∙◌, ap, arith, list_eq, nat_eq,
}
use teamspeak_prometheus.Characters.{Characters}
use teamspeak_prometheus.Metrics.{Floats}
use teamspeak_prometheus.Redaction.Marker.{IsMarker}
use teamspeak_prometheus.Redaction.Secrets.{NonEmpty, All-of_secrets_for_redaction}
use teamspeak_prometheus.Redaction.Hides.{points}
use teamspeak_prometheus.Redaction.Control.{OneLine}
use teamspeak_prometheus.Redaction.Lines.{forms_of, printable-hides}
use teamspeak_prometheus.Config.{Env, Config, valid, resolve_config}
use teamspeak_prometheus.Cli.{Namespace, no_flags, parse_args, password_candidates}
use teamspeak_prometheus.Cli.Passwords.{password-IsCandidate}
use teamspeak_prometheus.Healthcheck.{
  Proc, Outcome, passed, failed, effective, metrics_port, passwords, exporter_secrets, check,
  report, exit_code, main,
}

passed-ne-failed : {A : Type 0} (a : A) (m : Text) → passed a ≢ failed m
passed-ne-failed a m e = cc

passed-inj : {A : Type 0} (a b : A) → passed a ≡ passed b → a ≡ b
passed-inj a b e = cc

pub Outcome-cases :
    {A : Type 0} (o : Outcome A) → ((a : A) × (o ≡ passed a)) ⊎ ((m : Text) × (o ≡ failed m))
Outcome-cases (passed a) = inl (a, refl)
Outcome-cases (failed m) = inr (m, refl)

module _ (F : Floats) (C : Characters)
    (read_flags : List Text → List Text → Option (List (Text × Text))) (decode : List ℕ → Text)
    (own_pid : ℕ) where
  -- The endpoint of the port that the exporter's arguments and variables give answers.
  abbrev pub Healthy : (ℕ → Outcome (Unit {0})) → Env → Proc → Type 0
  Healthy prober env proc =
      (port : ℕ) × (metrics_port F C read_flags (effective decode own_pid env proc).0
          (effective decode own_pid env proc).1
        ≡ passed port)
      × (prober port ≡ passed tt)

  -- the code says whether the endpoint answers
  abbrev pub Told : (ℕ → Outcome (Unit {0})) → Env → Proc → ℕ → Type 0
  Told prober env proc code =
      ((code ≡ 0) × Healthy prober env proc) ⊎ ((code ≡ 1) × ¬ Healthy prober env proc)

  check-Told :
      (prober : ℕ → Outcome (Unit {0})) (env : Env) (proc : Proc)
      → Told prober env proc (exit_code (check F C read_flags decode own_pid prober env proc))
  unfolding check
  check-Told prober env proc =
      let outcome = check F C read_flags decode own_pid prober env proc in
      let (argv, own) = effective decode own_pid env proc in
      elim (Outcome-cases (metrics_port F C read_flags argv own)) [
        | inl (port, e) ↦ elim (Outcome-cases (prober port)) [
          | inl (_, q) ↦
              let r : outcome ≡ passed port = rw (check, e, q) refl in
              inl (ap exit_code r, (port, e, q))
          | inr (m, q) ↦
              let r : outcome ≡ failed m = rw (check, e, q) refl in
              inr (
                ap exit_code r,
                λ (p, f, g).
                    let same_port = passed-inj p port (sym f ∙ e) in
                    passed-ne-failed tt m (sym g ∙ ap prober same_port ∙ q),
              )
        ]
        | inr (m, e) ↦
            let r : outcome ≡ failed m = rw (check, e) refl in
            inr (ap exit_code r, λ (p, f, g). passed-ne-failed p m (sym f ∙ e))
      ]

  pub main-Told :
      (prober : ℕ → Outcome (Unit {0})) (env : Env) (before after : Proc) (c : ℕ)
      → IsMarker C.is_printable points
          (forms_of (exporter_secrets F C read_flags decode own_pid env before))
          c
      → (line : Text) × (code : ℕ) × (main F C read_flags decode own_pid prober env before after
          ≡ some (line, code))
        × OneLine line
        × All
            (λ s. NonEmpty s → is_infix s line ≡ false)
            (exporter_secrets F C read_flags decode own_pid env before)
        × Told prober env after code
  unfolding main
  main-Told prober env before after c marker =
      let secrets = exporter_secrets F C read_flags decode own_pid env before in
      let outcome = check F C read_flags decode own_pid prober env after in
      let (line, e, hidden, one) =
        printable-hides C.is_printable (report outcome) secrets c marker in
      (
        line,
        exit_code outcome,
        rw e refl,
        one,
        All-append_left (λ s. NonEmpty s → is_infix s line ≡ false) secrets _ hidden,
        check-Told prober env after,
      )

  -- the running exporter logs in with this password
  abbrev pub LogsInWith : Env → Proc → Text → Type 0
  LogsInWith env proc password =
      (ns : Namespace) × (config : Config F.Float) × (parse_args read_flags
          (effective decode own_pid env proc).0
        ≡ some ns)
      × (resolve_config F C ns.values (effective decode own_pid env proc).1 ≡ valid config)
      × (config.password ≡ password)

  passwords-LogsInWith :
      (env : Env) (proc : Proc) (password : Text)
      → LogsInWith env proc password
      → is_empty password ≡ false
      → contains (passwords F C read_flags decode own_pid env proc) password ≡ true
  unfolding passwords
  passwords-LogsInWith env proc password (ns, config, parsed, accepted, e) filled =
      let own = (effective decode own_pid env proc).1 in
      let given =
        password-IsCandidate F C read_flags (effective decode own_pid env proc).0 ns own config
          parsed accepted (ap is_empty e ∙ filled) in
      rw (passwords, parsed)
        (contains-append (password_candidates ns own) (password_candidates no_flags env) password
          ∙ ground (arith, given, e))

  -- If a printable character of the candidates occurs in no password of the exporter, the password that
  -- the running exporter logs in with is nowhere in the line that the healthcheck prints, whatever
  -- the check of the endpoint comes to.
  pub main-hides :
      (prober : ℕ → Outcome (Unit {0})) (env : Env) (before after : Proc) (password : Text) (c : ℕ)
      → LogsInWith env before password
      → is_empty password ≡ false
      → IsMarker C.is_printable points
          (forms_of (exporter_secrets F C read_flags decode own_pid env before))
          c
      → (line : Text) × (code : ℕ) × (main F C read_flags decode own_pid prober env before after
          ≡ some (line, code))
        × (is_infix password line ≡ false)
  unfolding exporter_secrets
  main-hides prober env before after password c login filled marker =
      let given = passwords F C read_flags decode own_pid env before in
      let (line, code, e, one, hidden, told) = main-Told prober env before after c marker in
      let hides : All (λ s. NonEmpty s → NonEmpty s → is_infix s line ≡ false) given =
        All-of_secrets_for_redaction (λ s. NonEmpty s → is_infix s line ≡ false) given hidden in
      (
        line,
        code,
        e,
        All-contains (λ s. NonEmpty s → NonEmpty s → is_infix s line ≡ false) given password hides
            (passwords-LogsInWith env before password login filled) filled filled,
      )
