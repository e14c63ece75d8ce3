-- ===== src/Metrics/Labels.antt =====
-- metrics.py: the label of a name.
pub mod Hides
use teamspeak_prometheus.Base.{
  ℕ, zero, suc, [], ◌∷◌, ap, ◌≤◌, ◌<◌, ◌≡◌, refl, Text, codes, ◌++◌, leb, leb→le, false, length,
  length-append, length-take, take, arith, Bool-cases, inl, inr,
}
use teamspeak_prometheus.Metrics.{label_value, max_label_length}

cut_length : (n : ℕ) (text : Text) → n < length text → length (take n text ++ codes "…") ≡ suc n
cut_length n text h = omega (arith, length-append (take n text) (codes "…"), length-take n text)

take-cut : (n : ℕ) (text : Text) → n < length text → take n (take n text ++ codes "…") ≡ take n text
take-cut n [] h = absurd (omega arith)
take-cut zero (c ∷ text) h = refl
take-cut (suc n) (c ∷ text) h = ap (λ rest. c ∷ rest) (take-cut n text (omega arith))

label_value-cases :
    (text : Text)
    → (length (label_value text) ≤ max_label_length)
      × (length text ≤ max_label_length → label_value text ≡ text)
      × (max_label_length < length text → label_value text ≡ take 255 text ++ codes "…")
unfolding label_value
label_value-cases text = elim (Bool-cases (leb (length text) max_label_length)) [
  | inl e ↦ rw e (ground arith, λ h. refl, λ h. absurd (ground arith))
  | inr e ↦
      let long : 256 < length text = ground arith in
      rw e (omega (arith, cut_length 255 text (omega arith)), λ h. absurd (omega arith), λ h. refl)
]

lt_of_leb : (m n : ℕ) → leb m n ≡ false → n < m
lt_of_leb m n h = ground arith

take-label_value : (text : Text) → take 255 (label_value text) ≡ take 255 text
take-label_value text =
    let (_, short, long) = label_value-cases text in
    elim (Bool-cases (leb (length text) max_label_length)) [
      | inl e ↦ ap (take 255) (short (leb→le (length text) max_label_length e))
      | inr e ↦
          let more = lt_of_leb (length text) max_label_length e in
          rw (long more) (take-cut 255 text (omega arith))
    ]

-- A label value has at most 256 characters and begins with the first 255 characters of the text, and
-- cutting it again changes nothing.
pub label_value_lem :
    (text : Text)
    → (length (label_value text) ≤ max_label_length)
      × (take 255 (label_value text) ≡ take 255 text)
      × (label_value (label_value text) ≡ label_value text)
label_value_lem text =
    let (bound, _, _) = label_value-cases text in
    (bound, take-label_value text, (label_value-cases (label_value text)).1 bound)
