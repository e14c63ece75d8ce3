-- ===== src/Metrics/Labels/Hides.antt =====
-- metrics.py and redaction.py: a name that is censored and then cut.
use teamspeak_prometheus.Base.{
  ℕ, zero, suc, ◌≡◌, refl, Bool, true, false, some, List, [], ◌∷◌, ◌++◌, Text, starts_with,
  is_infix, take, length, leb, All, Lacks, arith, Bool-cases, inl, inr,
}
use teamspeak_prometheus.Redaction.{redact, secrets_for_redaction}
use teamspeak_prometheus.Redaction.Marker.{IsMarker}
use teamspeak_prometheus.Redaction.Hides.{NonEmpty, points, redact-hides}
use teamspeak_prometheus.Metrics.{label_value, max_label_length}

-- `…`
abbrev pub ellipsis : ℕ
ellipsis = 0x2026

starts_with-cut :
    (s text : Text) (n : ℕ)
    → Lacks ellipsis s
    → starts_with s (take n text ++ ellipsis ∷ []) ≡ true
    → starts_with s text ≡ true
unfolding starts_with
starts_with-cut [] text n lacks h = refl
starts_with-cut (c ∷ s) [] zero lacks h = absurd (ground arith)
starts_with-cut (c ∷ s) [] (suc n) lacks h = absurd (ground arith)
starts_with-cut (c ∷ s) (d ∷ text) zero lacks h = absurd (ground arith)
starts_with-cut (c ∷ s) (d ∷ text) (suc n) (ne, lacks) h =
    ground (arith, h, starts_with-cut s text n lacks)

is_infix-ellipsis : (s : Text) → NonEmpty s → Lacks ellipsis s → is_infix s (ellipsis ∷ []) ≡ false
unfolding is_infix starts_with
is_infix-ellipsis [] filled lacks = absurd (ground arith)
is_infix-ellipsis (c ∷ s) filled (ne, lacks) = ground arith

is_infix-cut :
    (s text : Text) (n : ℕ)
    → NonEmpty s
    → Lacks ellipsis s
    → is_infix s (take n text ++ ellipsis ∷ []) ≡ true
    → is_infix s text ≡ true
unfolding is_infix
is_infix-cut s [] zero filled lacks h = absurd (ground (arith, is_infix-ellipsis s filled lacks))
is_infix-cut s [] (suc n) filled lacks h = absurd (ground (arith, is_infix-ellipsis s filled lacks))
is_infix-cut s (d ∷ text) zero filled lacks h =
    absurd (ground (arith, is_infix-ellipsis s filled lacks))
is_infix-cut s (d ∷ text) (suc n) filled lacks h =
    elim (Bool-cases (starts_with s (d ∷ (take n text ++ ellipsis ∷ [])))) [
      | inl e ↦ ground (arith, starts_with-cut s (d ∷ text) (suc n) lacks e)
      | inr e ↦ ground (arith, h, e, is_infix-cut s text n filled lacks)
    ]

is_infix-label_value :
    (s text : Text)
    → NonEmpty s
    → Lacks ellipsis s
    → is_infix s text ≡ false
    → is_infix s (label_value text) ≡ false
unfolding label_value
is_infix-label_value s text filled lacks h =
    elim (Bool-cases (leb (length text) max_label_length)) [
      | inl e ↦ rw (label_value, e) h
      | inr e ↦ elim (Bool-cases (is_infix s (take 255 text ++ ellipsis ∷ []))) [
        | inr q ↦ rw (label_value, e) q
        | inl q ↦ absurd (ground (arith, h, is_infix-cut s text 255 filled lacks q))
      ]
    ]

All-label_value :
    (given : List Text) (text : Text)
    → All (Lacks ellipsis) given
    → All (λ s. NonEmpty s → is_infix s text ≡ false) given
    → All (λ s. NonEmpty s → is_infix s (label_value text) ≡ false) given
All-label_value [] text _ _ = tt
All-label_value (s ∷ given) text (lacks, more) (h, hs) = (
  λ filled. is_infix-label_value s text filled lacks (h filled),
  All-label_value given text more hs,
)

-- If a printable character of the candidates occurs in no secret, and no secret has an `…`, a name of
-- any length that is censored and then cut to a label has no secret in it, empty ones aside.
pub label_value-hides :
    (is_printable : ℕ → Bool) (name : Text) (given : List Text) (c : ℕ)
    → IsMarker is_printable points given c
    → All (Lacks ellipsis) given
    → (r : Text) × (redact is_printable name (secrets_for_redaction given) ≡ some r)
      × All (λ s. NonEmpty s → is_infix s (label_value r) ≡ false) given
label_value-hides is_printable name given c marker lacks =
    let (r, e, hidden) = redact-hides is_printable name given c marker in
    (r, e, All-label_value given r lacks hidden)
