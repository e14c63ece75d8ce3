-- ===== src/Redaction/Hides.antt =====
-- redaction.py: the result of `redact`, against the secrets that it is given.
use teamspeak_prometheus.Base.{
  ℕ, ◌-◌, ◌≡◌, inl, inr, refl, Bool, false, some, List, [], ◌∷◌, Text, is_infix, replicate, any,
  All, Lacks, Bool-cases, list_eq, nat_eq,
}
use teamspeak_prometheus.Redaction.{
  redacted, distinct, secrets_for_redaction, substitute, redact_among, redact,
}
use teamspeak_prometheus.Redaction.Marker.{InRange, IsMarker, marker_among-some}
use teamspeak_prometheus.Redaction.Marker.{InRange, IsMarker, marker_among-some}
pub use teamspeak_prometheus.Redaction.Secrets.{NonEmpty}
use teamspeak_prometheus.Redaction.Secrets.{
  All-sort_by_length, All-distinct, secrets_for_redaction-NonEmpty, All-of_secrets_for_redaction,
}
use teamspeak_prometheus.Redaction.Substitute.{
  match_length-none, substitute-hides, any-none, All-replicate, All-substitute,
}

module _ {ℓ} (is_printable : ℕ → Bool) (left : ℕ) (P : ℕ → Type ℓ) where
  -- what `redact` does: it returns, hides the secrets, and writes only characters of the text or of
  -- a marker
  abbrev Hides : Text → List Text → Type ℓ
  Hides text secrets =
      (r : Text) × (redact_among is_printable left text secrets ≡ some r)
      × All (λ s. is_infix s r ≡ false) secrets
      × (All P redacted → ((d : ℕ) → InRange left d → P d) → All P text → All P r)

  redact_among-Hides :
      (text : Text) (secrets : List Text) (c : ℕ)
      → All NonEmpty secrets
      → IsMarker is_printable left secrets c
      → Hides text secrets
  unfolding redact_among
  redact_among-Hides text [] c full marker = (text, refl, tt, λ _ _ h. h)
  redact_among-Hides text (s ∷ secrets) c full marker =
      let every = s ∷ secrets in
      let result = substitute every redacted 0 text in
      elim (Bool-cases (any (λ secret. is_infix secret result) every)) [
        | inl e ↦
            let (d, found, good) = marker_among-some is_printable left every c marker in
            (
              substitute every (replicate 8 d) 0 text,
              rw (e, found),
              substitute-hides every d 7 every good.unused full (match_length-none every) text,
              λ _ range h.
                  All-substitute P every (replicate 8 d) 0 text
                    (All-replicate P 8 d (range d good.in_range)) h,
            )
        | inr e ↦ (
          result,
          rw e,
          any-none result every e,
          λ r _ h. All-substitute P every redacted 0 text r h,
        )
      ]

-- a marker for the secrets as given serves for the prepared ones
secrets_for_redaction-IsMarker :
    (is_printable : ℕ → Bool) (left : ℕ) (given : List Text) (c : ℕ)
    → IsMarker is_printable left given c
    → IsMarker is_printable left (secrets_for_redaction given) c
unfolding secrets_for_redaction
secrets_for_redaction-IsMarker is_printable left given c h = record {
  unused = All-sort_by_length (Lacks c) (distinct given) (All-distinct (Lacks c) given h.unused);
  shown = h.shown;
  in_range = h.in_range;
}

-- the number of points in `range(0x2580, sys.maxunicode + 1)`
abbrev pub points : ℕ
points = 0x110000 - 0x2580

pub redact-Hides {ℓ} :
    (is_printable : ℕ → Bool) (P : ℕ → Type ℓ) (text : Text) (given : List Text) (c : ℕ)
    → IsMarker is_printable points given c
    → (r : Text) × (redact is_printable text (secrets_for_redaction given) ≡ some r)
      × All (λ s. NonEmpty s → is_infix s r ≡ false) given
      × (All P redacted → ((d : ℕ) → InRange points d → P d) → All P text → All P r)
unfolding redact
redact-Hides is_printable P text given c marker =
    let ready = secrets_for_redaction-IsMarker is_printable points given c marker in
    let (r, e, h, keeps) =
      redact_among-Hides is_printable points P text (secrets_for_redaction given) c
        (secrets_for_redaction-NonEmpty given) ready in
    (r, e, All-of_secrets_for_redaction (λ s. is_infix s r ≡ false) given h, keeps)

-- If a printable character of the candidates occurs in no given secret, `redact` returns, and no
-- given secret is left in the result, empty ones aside.
pub redact-hides :
    (is_printable : ℕ → Bool) (text : Text) (given : List Text) (c : ℕ)
    → IsMarker is_printable points given c
    → (r : Text) × (redact is_printable text (secrets_for_redaction given) ≡ some r)
      × All (λ s. NonEmpty s → is_infix s r ≡ false) given
redact-hides is_printable text given c marker =
    let (r, e, h, _) = redact-Hides is_printable (λ _. Unit {0}) text given c marker in (r, e, h)
