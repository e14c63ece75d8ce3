-- ===== src/Service/Counting.antt =====
-- service.py: the counts of `poll_errors`.
use teamspeak_prometheus.Base.{
  ◌≡◌, ◌≤◌, refl, ◌∙◌, ap, sym, Text, true, false, contains, arith, list_eq, nat_eq, same,
  Bool-cases, inl, inr, same_eq, subst,
}
use teamspeak_prometheus.Metrics.{Prometheus, IsLawful}
use teamspeak_prometheus.Metrics.Registry.{error_reasons}

module _ {Float : Type 0} (P : Prometheus Float) where
  -- the second counter is the first one after some errors of known reasons
  pub data Counted : P.Counter → P.Counter → Type 0 where
    none_more : {c : P.Counter} → Counted c c
    one_more :
        {c d e : P.Counter} (reason : Text)
        → contains error_reasons reason ≡ true
        → e ≡ P.inc d reason
        → Counted c d
        → Counted c e

  pub Counted-trans : {c d e : P.Counter} → Counted c d → Counted d e → Counted c e
  Counted-trans h none_more = h
  Counted-trans h (one_more reason known e k) = one_more reason known e (Counted-trans h k)

module _ {Float : Type 0} (P : Prometheus Float) (L : IsLawful P) where
  -- No count falls, and only those of known reasons rise.
  pub count-Counted :
      {c d : P.Counter} (l : Text)
      → Counted P c d
      → (P.count c l ≤ P.count d l) × (contains error_reasons l ≡ false → P.count d l ≡ P.count c l)
  count-Counted l none_more = (omega arith, λ h. refl)
  count-Counted l (one_more {d = d} reason known e k) =
      let (le, unknown) = count-Counted l k in
      let counts = ap (λ c. P.count c l) e ∙ L.count-inc d reason l in
      elim (Bool-cases (same l reason)) [
        | inl q ↦
            let known_l =
              subst (λ r. contains error_reasons r ≡ true) (sym (same_eq l reason q)) known in
            let raised = rw q at counts in
            (omega (arith, raised, le), λ h. absurd (ground (arith, h, known_l)))
        | inr q ↦ let kept = rw q at counts in (omega (arith, kept, le), λ h. kept ∙ unknown h)
      ]
