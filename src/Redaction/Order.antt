-- ===== src/Redaction/Order.antt =====
-- redaction.py: `redact` and the order in which Python's set gives the secrets.
use mathlib.Core.Quot
use mathlib.Core.Quot.{Quot, Quot-set}
use mathlib.Core.Option
use mathlib.Core.Path.{fun_ext}
use teamspeak_prometheus.Base.{
  ℕ, zero, suc, ◌+◌, ◌-◌, ◌==◌, ◌≡◌, ◌∙◌, refl, ap, Bool, if◌then◌else◌, Option, none, some, List,
  [], ◌∷◌, ◌++◌, Text, codes, is_infix, replicate, any, arith, Within, any-same, Bool-cases,
  Option-cases, inl, inr, list_eq, nat_eq,
}
use teamspeak_prometheus.Redaction.{
  redacted, secrets_for_redaction, match_length, substitute, is_used, is_candidate, first_of_list,
  first_of_range, or_in_range, marker_among, redact_among, redact,
}
use teamspeak_prometheus.Redaction.Longest.{
  IsDescending, secrets_for_redaction-IsDescending, match_length-same, secrets_for_redaction-Within,
}

module _ (secrets others : List Text) (d : IsDescending secrets) (c : IsDescending others)
    (w : Within secrets others) (v : Within others secrets) where
  substitute-same :
      (marker : Text) (skip : ℕ) (text : Text)
      → substitute secrets marker skip text ≡ substitute others marker skip text
  unfolding substitute
  substitute-same marker skip [] = elim skip [ zero ↦ refl | suc n ↦ refl ]
  substitute-same marker (suc skip) (x ∷ text) = substitute-same marker skip text
  substitute-same marker zero (x ∷ text) =
      let e = match_length-same (x ∷ text) secrets others d c w v in
      elim (Option-cases (match_length others (x ∷ text))) [
        | inl q ↦ rw (substitute, e, q) (ap (λ t. x ∷ t) (substitute-same marker zero text))
        | inr (n, q) ↦
            rw (substitute, e, q) (ap (λ t. marker ++ t) (substitute-same marker (n - 1) text))
      ]

  module _ (is_printable : ℕ → Bool) where
    is_candidate-same :
        (p : ℕ) → is_candidate is_printable secrets p ≡ is_candidate is_printable others p
    unfolding is_candidate is_used
    is_candidate-same p = rw (any-same (any (λ x. x == p)) secrets others w v) refl

    first_of_list-same :
        (l : Text) → first_of_list is_printable secrets l ≡ first_of_list is_printable others l
    unfolding first_of_list
    first_of_list-same [] = refl
    first_of_list-same (p ∷ rest) = rw (is_candidate-same p, first_of_list-same rest) refl

    first_of_range-same :
        (left point : ℕ)
        → first_of_range is_printable secrets left point
          ≡ first_of_range is_printable others left point
    unfolding first_of_range
    first_of_range-same zero point = refl
    first_of_range-same (suc left) point =
        elim (Bool-cases (is_candidate is_printable others point)) [
          | inl e ↦ rw (first_of_range, is_candidate-same point, e) refl
          | inr e ↦
              rw (first_of_range, is_candidate-same point, e) (first_of_range-same left (point + 1))
        ]

    or_in_range-same :
        (left : ℕ) (found : Option ℕ)
        → or_in_range is_printable secrets left found ≡ or_in_range is_printable others left found
    or_in_range-same left none = first_of_range-same left 0x2580
    or_in_range-same left (some p) = refl

    marker_among-same :
        (left : ℕ) → marker_among is_printable left secrets ≡ marker_among is_printable left others
    unfolding marker_among
    marker_among-same left =
        let pool = codes "#~^%" in
        ap (Option.map (replicate 8)) (
          or_in_range-same left (first_of_list is_printable secrets pool)
          ∙ ap (or_in_range is_printable others left) (first_of_list-same pool))

-- a text, where `censored` writes a marker for every secret, `hit` says whether that leaves one, and
-- `marker` is the other marker
abbrev outcome : (Text → Text) → (Text → Bool) → Option Text → Option Text
outcome censored hit marker =
    if hit (censored redacted) then Option.map censored marker else some (censored redacted)

module _ (is_printable : ℕ → Bool) (left : ℕ) (text : Text) where
  -- Prepared secrets with the same members, in whatever order those of one length stand, censor alike.
  redact_among-same :
      (secrets others : List Text)
      → IsDescending secrets
      → IsDescending others
      → Within secrets others
      → Within others secrets
      → redact_among is_printable left text secrets ≡ redact_among is_printable left text others
  unfolding redact_among
  redact_among-same [] [] d c w v = refl
  redact_among-same [] (t ∷ others) d c w v = absurd (ground (arith, v))
  redact_among-same (s ∷ secrets) [] d c w v = absurd (ground (arith, w))
  redact_among-same (s ∷ secrets) (t ∷ others) d c w v =
      let every = s ∷ secrets in
      let all = t ∷ others in
      let f : ◌≡◌ {A = Text → Text} (λ marker. substitute every marker 0 text)
          (λ marker. substitute all marker 0 text) =
        fun_ext (λ marker. substitute-same every all d c w v marker 0 text) in
      let hit : ◌≡◌ {A = Text → Bool} (λ r. any (λ q. is_infix q r) every)
          (λ r. any (λ q. is_infix q r) all) =
        fun_ext (λ r. any-same (λ q. is_infix q r) every all w v) in
      let m = marker_among-same every all d c w v is_printable left in
      λ i. outcome (f i) (hit i) (m i)

-- the same members
abbrev pub SameMembers : List Text → List Text → Type 0
SameMembers given other = Within given other × Within other given

-- a set of secrets, which has no order
abbrev pub SecretSet : Type 0
SecretSet = Quot SameMembers

redact-same :
    (is_printable : ℕ → Bool) (text : Text) (given other : List Text)
    → SameMembers given other
    → redact is_printable text (secrets_for_redaction given)
      ≡ redact is_printable text (secrets_for_redaction other)
unfolding redact
redact-same is_printable text given other (w, v) =
    redact_among-same is_printable (0x110000 - 0x2580) text (secrets_for_redaction given)
      (secrets_for_redaction other) (secrets_for_redaction-IsDescending given)
      (secrets_for_redaction-IsDescending other) (secrets_for_redaction-Within given other w)
      (secrets_for_redaction-Within other given v)

-- `redact` of a set of secrets
redact_set : (is_printable : ℕ → Bool) → Text → SecretSet → Option Text
redact_set is_printable text =
    Quot.lift (hlevel) (λ given. redact is_printable text (secrets_for_redaction given))
      (redact-same is_printable text)

-- `redact` gives the same for two lists that are the same set of secrets, in every text: the order in
-- which the set gives its secrets does not matter, nor how often one was given.
pub redact-set :
    (is_printable : ℕ → Bool) (text : Text) (given other : List Text)
    → ◌≡◌ {A = SecretSet} (Quot.mk given) (Quot.mk other)
    → redact is_printable text (secrets_for_redaction given)
      ≡ redact is_printable text (secrets_for_redaction other)
unfolding redact_set
redact-set is_printable text given other e = ap (redact_set is_printable text) e
