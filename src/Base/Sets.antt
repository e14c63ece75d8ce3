-- ===== src/Base/Sets.antt =====
-- Lists as sets: the members of one among those of the other.
use mathlib.Core.Path.{◌≡◌, sym, subst}
use mathlib.Core.Logic.{inl, inr}
use mathlib.Core.Bool.{Bool, true}
use mathlib.Core.List.{List, [], ◌∷◌}
use native.Mathlib.Omega.{arith}
use teamspeak_prometheus.Base.Tests.{Bool-cases}
use teamspeak_prometheus.Base.Lists.{All, All-mono, any}
use teamspeak_prometheus.Base.Equality.{Eq, same, contains, same_eq, same_refl}

module _ {ℓ} {A : Type ℓ} ⦃e : Eq A⦄ where
  pub All-contains {κ} :
      (P : A → Type κ) (xs : List A) (a : A) → All P xs → contains xs a ≡ true → P a
  All-contains P [] a h m = absurd (ground arith)
  All-contains P (x ∷ xs) a (p, h) m = elim (Bool-cases (same x a)) [
    | inl q ↦ subst P (same_eq x a q) p
    | inr q ↦ All-contains P xs a h (ground (arith, q, m))
  ]

  -- Every member of the first list is one of the second.
  abbrev pub Within : List A → List A → Type 0
  Within xs ys = All (λ a. contains ys a ≡ true) xs

  Within-cons : (x : A) (xs ys : List A) → Within xs ys → Within xs (x ∷ ys)
  Within-cons x xs ys =
      All-mono (λ a. contains ys a ≡ true) (λ a. contains (x ∷ ys) a ≡ true) xs
        (λ a h. ground (arith, h))

  pub Within-self : (xs : List A) → Within xs xs
  Within-self [] = tt
  Within-self (x ∷ xs) = (ground (arith, same_refl x), Within-cons x xs xs (Within-self xs))

  pub All-Within {κ} : (P : A → Type κ) (xs ys : List A) → Within xs ys → All P ys → All P xs
  All-Within P xs ys w h =
      All-mono (λ a. contains ys a ≡ true) P xs (λ a m. All-contains P ys a h m) w

  any-true :
      (p : A → Bool) (xs : List A) (a : A) → contains xs a ≡ true → p a ≡ true → any p xs ≡ true
  any-true p [] a m h = absurd (ground arith)
  any-true p (x ∷ xs) a m h = elim (Bool-cases (same x a)) [
    | inl q ↦
        let r : p x ≡ true = subst (λ b. p b ≡ true) (sym (same_eq x a q)) h in ground (arith, r)
    | inr q ↦ ground (arith, any-true p xs a (ground (arith, q, m)) h)
  ]

  any-Within : (p : A → Bool) (xs ys : List A) → Within xs ys → any p xs ≡ true → any p ys ≡ true
  any-Within p [] ys w h = absurd (ground arith)
  any-Within p (x ∷ xs) ys (m, w) h = elim (Bool-cases (p x)) [
    | inl q ↦ any-true p ys x m q
    | inr q ↦ any-Within p xs ys w (ground (arith, q, h))
  ]

  -- Lists with the same members answer every test of `any` alike.
  pub any-same : (p : A → Bool) (xs ys : List A) → Within xs ys → Within ys xs → any p xs ≡ any p ys
  any-same p xs ys w v = elim (Bool-cases (any p xs)) [
    | inl h ↦ ground (arith, h, any-Within p xs ys w h)
    | inr h ↦ elim (Bool-cases (any p ys)) [
      | inl k ↦ ground (arith, h, k, any-Within p ys xs v k)
      | inr k ↦ ground (arith, h, k)
    ]
  ]
