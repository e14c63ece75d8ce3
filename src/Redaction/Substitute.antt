-- ===== src/Redaction/Substitute.antt =====
-- redaction.py: `pattern.sub`, and the secrets in its result.
use teamspeak_prometheus.Base.{
  ℕ, zero, suc, ◌-◌, ◌≡◌, inl, inr, refl, true, false, none, List, [], ◌∷◌, ◌++◌, Text, starts_with,
  is_infix, replicate, any, arith, All, All-append, Lacks, Bool-cases, Option-cases, list_eq,
  nat_eq,
}
use teamspeak_prometheus.Redaction.{match_length, substitute}
use teamspeak_prometheus.Redaction.Secrets.{NonEmpty}

-- a match is found wherever a secret starts
pub match_length-none :
    (secrets : List Text) (text : Text)
    → match_length secrets text ≡ none
    → All (λ s. starts_with s text ≡ false) secrets
unfolding match_length
match_length-none [] text h = tt
match_length-none (s ∷ secrets) text h =
    (ground arith, match_length-none secrets text (ground arith))

is_infix-cons :
    (s : Text) (c : ℕ) (text : Text)
    → starts_with s (c ∷ text) ≡ false
    → is_infix s text ≡ false
    → is_infix s (c ∷ text) ≡ false
unfolding is_infix
is_infix-cons s c text h e = rw (h, e)

module _ (secrets : List Text) (m : ℕ) (k : ℕ) where
  -- a text without the marker's character that starts the result starts the original
  starts_with-substitute :
      (s text : Text)
      → Lacks m s
      → starts_with s (substitute secrets (replicate (suc k) m) zero text) ≡ true
      → starts_with s text ≡ true
  unfolding starts_with substitute
  starts_with-substitute [] text h e = refl
  starts_with-substitute (c ∷ s) [] h e = e
  starts_with-substitute (c ∷ s) (d ∷ text) (ne, h) e =
      elim (Option-cases (match_length secrets (d ∷ text))) [
        | inl miss ↦
            let shown = rw (miss, substitute) at e in
            ground (arith, shown, starts_with-substitute s text h)
        | inr (n, found) ↦ let shown = rw (found, substitute) at e in absurd (ground (arith, shown))
      ]

  is_infix_skip_marker :
      (s : Text) (n : ℕ) (text : Text)
      → Lacks m s
      → NonEmpty s
      → is_infix s text ≡ false
      → is_infix s (replicate n m ++ text) ≡ false
  unfolding is_infix
  is_infix_skip_marker s zero text h full e = e
  is_infix_skip_marker [] (suc n) text h full e = absurd (cc)
  is_infix_skip_marker (c ∷ s) (suc n) text h full e =
      ground (arith, h.0, is_infix_skip_marker (c ∷ s) n text h full e)

  is_infix-substitute :
      (s : Text)
      → Lacks m s
      → NonEmpty s
      → ((text : Text) → match_length secrets text ≡ none → starts_with s text ≡ false)
      → (skip : ℕ) (text : Text)
      → is_infix s (substitute secrets (replicate (suc k) m) skip text) ≡ false
  unfolding substitute
  is_infix-substitute [] h full missed skip text = absurd (cc)
  is_infix-substitute (x ∷ s) h full missed skip [] = unfold is_infix in refl
  is_infix-substitute (x ∷ s) h full missed (suc skip) (c ∷ text) =
      is_infix-substitute (x ∷ s) h full missed skip text
  is_infix-substitute (x ∷ s) h full missed zero (c ∷ text) =
      elim (Option-cases (match_length secrets (c ∷ text))) [
        | inl miss ↦
            let rest = substitute secrets (replicate (suc k) m) zero text in
            let starts : starts_with (x ∷ s) (c ∷ rest) ≡ false =
              elim (Bool-cases (starts_with (x ∷ s) (c ∷ rest))) [
                | inl e ↦
                    let in_text =
                      starts_with-substitute (x ∷ s) (c ∷ text) h (rw (miss, substitute) e) in
                    cc (in_text, missed (c ∷ text) miss)
                | inr e ↦ e
              ] in
            rw (miss, substitute)
              (is_infix-cons (x ∷ s) c rest starts
                (is_infix-substitute (x ∷ s) h full missed zero text))
        | inr (n, found) ↦
            rw (found, substitute)
              (is_infix_skip_marker (x ∷ s) (suc k)
                (substitute secrets (replicate (suc k) m) (n - 1) text) h full
                (is_infix-substitute (x ∷ s) h full missed (n - 1) text))
      ]

  -- every secret that lacks the marker's character is gone
  pub substitute-hides :
      (given : List Text)
      → All (Lacks m) given
      → All NonEmpty given
      → ((text : Text)
          → match_length secrets text ≡ none
          → All (λ s. starts_with s text ≡ false) given)
      → (text : Text)
      → All (λ s. is_infix s (substitute secrets (replicate (suc k) m) zero text) ≡ false) given
  substitute-hides [] u f missed text = tt
  substitute-hides (s ∷ given) (p, u) (q, f) missed text = (
    is_infix-substitute s p q (λ t e. (missed t e).0) zero text,
    substitute-hides given u f (λ t e. (missed t e).1) text,
  )

pub any-none :
    (r : Text) (secrets : List Text)
    → any (λ s. is_infix s r) secrets ≡ false
    → All (λ s. is_infix s r ≡ false) secrets
any-none r [] h = tt
any-none r (s ∷ secrets) h = (ground arith, any-none r secrets (ground arith))

module _ {ℓ} (P : ℕ → Type ℓ) where
  pub All-replicate : (n d : ℕ) → P d → All P (replicate n d)
  All-replicate zero d p = tt
  All-replicate (suc n) d p = (p, All-replicate n d p)

  pub All-substitute :
      (secrets : List Text) (marker : Text) (skip : ℕ) (text : Text)
      → All P marker
      → All P text
      → All P (substitute secrets marker skip text)
  unfolding substitute
  All-substitute secrets marker skip [] pm pt = tt
  All-substitute secrets marker (suc skip) (c ∷ text) pm (p, pt) =
      All-substitute secrets marker skip text pm pt
  All-substitute secrets marker zero (c ∷ text) pm (p, pt) =
      elim (Option-cases (match_length secrets (c ∷ text))) [
        | inl miss ↦ rw (miss, substitute) (p, All-substitute secrets marker zero text pm pt)
        | inr (n, found) ↦
            rw (found, substitute)
              (All-append P marker (substitute secrets marker (n - 1) text) pm
                (All-substitute secrets marker (n - 1) text pm pt))
      ]
