-- ===== src/Redaction/Secrets.antt =====
-- redaction.py: `secrets_for_redaction` and the secrets that it is given.
use teamspeak_prometheus.Base.{
  ◌≡◌, inl, inr, true, false, ◌||◌, ltb, List, [], ◌∷◌, Text, is_empty, length, arith, All,
  contains, Bool-cases, list_eq, nat_eq,
}
use teamspeak_prometheus.Redaction.{
  distinct, insert_by_length, sort_by_length, secrets_for_redaction,
}

-- Which secrets the list passes on, and that none of them is empty.
abbrev pub NonEmpty : Text → Type 0
NonEmpty s = is_empty s ≡ false

module _ {ℓ} (P : Text → Type ℓ) where
  pub All-insert_by_length :
      (s : Text) (sorted : List Text) → P s → All P sorted → All P (insert_by_length s sorted)
  unfolding insert_by_length
  All-insert_by_length s [] p h = (p, tt)
  All-insert_by_length s (t ∷ sorted) p (q, h) = elim (Bool-cases (ltb (length s) (length t))) [
    | inl e ↦ rw e (q, All-insert_by_length s sorted p h)
    | inr e ↦ rw e (p, (q, h))
  ]

  All-of_insert_by_length :
      (s : Text) (sorted : List Text) → All P (insert_by_length s sorted) → P s × All P sorted
  unfolding insert_by_length
  All-of_insert_by_length s [] h = h
  All-of_insert_by_length s (t ∷ sorted) h = elim (Bool-cases (ltb (length s) (length t))) [
    | inl e ↦
        let here = rw e at h in
        let rest = All-of_insert_by_length s sorted here.1 in (rest.0, (here.0, rest.1))
    | inr e ↦ rw e at h
  ]

  pub All-sort_by_length : (secrets : List Text) → All P secrets → All P (sort_by_length secrets)
  unfolding sort_by_length
  All-sort_by_length [] h = tt
  All-sort_by_length (s ∷ secrets) (p, h) =
      All-insert_by_length s (sort_by_length secrets) p (All-sort_by_length secrets h)

  All-of_sort_by_length : (secrets : List Text) → All P (sort_by_length secrets) → All P secrets
  unfolding sort_by_length
  All-of_sort_by_length [] h = tt
  All-of_sort_by_length (s ∷ secrets) h =
      let rest = All-of_insert_by_length s (sort_by_length secrets) h in
      (rest.0, All-of_sort_by_length secrets rest.1)

  All-contains_nonempty :
      (secrets : List Text) (s : Text)
      → All (λ t. NonEmpty t → P t) secrets
      → NonEmpty s
      → contains secrets s ≡ true
      → P s
  All-contains_nonempty [] s h full m = absurd (cc)
  All-contains_nonempty (t ∷ secrets) s (p, h) full m = elim (list_eq.dec s t) [
    | yes e ↦ rw e (p (rw (← e) full))
    | no ne ↦ All-contains_nonempty secrets s h full (ground arith)
  ]

  pub All-of_distinct :
      (secrets : List Text) → All P (distinct secrets) → All (λ s. NonEmpty s → P s) secrets
  unfolding distinct
  All-of_distinct [] h = tt
  All-of_distinct (s ∷ secrets) h = elim (Bool-cases (is_empty s || contains secrets s)) [
    | inl dropped ↦
        let rest = All-of_distinct secrets (rw dropped at h) in
        (λ full. All-contains_nonempty secrets s rest full (ground arith), rest)
    | inr kept ↦ let (p, q) = rw kept at h in (λ full. p, All-of_distinct secrets q)
  ]

pub distinct-NonEmpty : (secrets : List Text) → All NonEmpty (distinct secrets)
unfolding distinct
distinct-NonEmpty [] = tt
distinct-NonEmpty (s ∷ secrets) = elim (Bool-cases (is_empty s || contains secrets s)) [
  | inl dropped ↦ rw dropped (distinct-NonEmpty secrets)
  | inr kept ↦ rw kept (ground arith, distinct-NonEmpty secrets)
]

pub secrets_for_redaction-NonEmpty :
    (secrets : List Text) → All NonEmpty (secrets_for_redaction secrets)
unfolding secrets_for_redaction
secrets_for_redaction-NonEmpty secrets =
    All-sort_by_length NonEmpty (distinct secrets) (distinct-NonEmpty secrets)

-- What holds of the prepared secrets holds of every secret that is not empty.
pub All-of_secrets_for_redaction {ℓ} :
    (P : Text → Type ℓ) (secrets : List Text)
    → All P (secrets_for_redaction secrets)
    → All (λ s. NonEmpty s → P s) secrets
unfolding secrets_for_redaction
All-of_secrets_for_redaction P secrets h =
    All-of_distinct P secrets (All-of_sort_by_length P (distinct secrets) h)

pub All-distinct {ℓ} :
    (P : Text → Type ℓ) (secrets : List Text) → All P secrets → All P (distinct secrets)
unfolding distinct
All-distinct P [] h = tt
All-distinct P (s ∷ secrets) (p, h) = elim (Bool-cases (is_empty s || contains secrets s)) [
  | inl dropped ↦ rw dropped (All-distinct P secrets h)
  | inr kept ↦ rw kept (p, All-distinct P secrets h)
]
