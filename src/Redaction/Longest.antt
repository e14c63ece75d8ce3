-- ===== src/Redaction/Longest.antt =====
-- redaction.py: the alternatives of `_secrets_pattern`, which are sorted with the longest first.
use teamspeak_prometheus.Base.{
  ℕ, ◌≤◌, ◌≡◌, refl, true, false, ltb, Option, none, some, List, [], ◌∷◌, Text, starts_with, length,
  arith, All, All-mono, All-contains, Within, contains, same_refl, Bool-cases, inl, inr, list_eq,
  nat_eq, ap, All-Within, All-apply, Within-self,
}
use teamspeak_prometheus.Redaction.{
  distinct, insert_by_length, sort_by_length, secrets_for_redaction, match_length,
}
use teamspeak_prometheus.Redaction.Secrets.{
  NonEmpty, All-insert_by_length, All-sort_by_length, All-distinct, All-of_secrets_for_redaction,
  secrets_for_redaction-NonEmpty,
}

abbrev pub IsDescending : List Text → Type 0
IsDescending [] = Unit
IsDescending (s ∷ secrets) = All (λ t. length t ≤ length s) secrets × IsDescending secrets

insert_by_length-IsDescending :
    (s : Text) (sorted : List Text) → IsDescending sorted → IsDescending (insert_by_length s sorted)
unfolding insert_by_length
insert_by_length-IsDescending s [] h = (tt, tt)
insert_by_length-IsDescending s (t ∷ sorted) (h, d) =
    elim (Bool-cases (ltb (length s) (length t))) [
      | inl e ↦ rw e (
        All-insert_by_length (λ u. length u ≤ length t) s sorted (ground (arith, e)) h,
        insert_by_length-IsDescending s sorted d,
      )
      | inr e ↦
          let below : length t ≤ length s = ground (arith, e) in
          rw e (
            (
              below,
              All-mono (λ u. length u ≤ length t) (λ u. length u ≤ length s) sorted
                  (λ u k. omega arith) h,
            ),
            (h, d),
          )
    ]

sort_by_length-IsDescending : (secrets : List Text) → IsDescending (sort_by_length secrets)
unfolding sort_by_length
sort_by_length-IsDescending [] = tt
sort_by_length-IsDescending (s ∷ secrets) =
    insert_by_length-IsDescending s (sort_by_length secrets) (sort_by_length-IsDescending secrets)

pub secrets_for_redaction-IsDescending :
    (secrets : List Text) → IsDescending (secrets_for_redaction secrets)
unfolding secrets_for_redaction
secrets_for_redaction-IsDescending secrets = sort_by_length-IsDescending (distinct secrets)

-- the length of the longest secret that the text starts with
abbrev IsLongest : Text → List Text → Option ℕ → Type 0
IsLongest text secrets none = All (λ s. starts_with s text ≡ false) secrets
IsLongest text secrets (some n) =
    ((s : Text) × (contains secrets s ≡ true) × (starts_with s text ≡ true) × (length s ≡ n))
    × All (λ s. starts_with s text ≡ true → length s ≤ n) secrets

IsLongest-cons :
    (text s : Text) (secrets : List Text) (r : Option ℕ)
    → starts_with s text ≡ false
    → IsLongest text secrets r
    → IsLongest text (s ∷ secrets) r
IsLongest-cons text s secrets none e h = (e, h)
IsLongest-cons text s secrets (some n) e ((t, m, p, l), h) =
    ((t, ground (arith, m), p, l), (λ q. ground (arith, e, q), h))

match_length-IsLongest :
    (text : Text) (secrets : List Text)
    → IsDescending secrets
    → IsLongest text secrets (match_length secrets text)
unfolding match_length
match_length-IsLongest text [] d = tt
match_length-IsLongest text (s ∷ secrets) (below, d) = elim (Bool-cases (starts_with s text)) [
  | inl e ↦ rw e (
    (s, ground (arith, same_refl s), e, refl),
    (
      λ q. omega arith,
      All-mono (λ t. length t ≤ length s) (λ t. starts_with t text ≡ true → length t ≤ length s)
          secrets (λ t h q. h) below,
    ),
  )
  | inr e ↦ rw e (
      IsLongest-cons text s secrets (match_length secrets text) e
        (match_length-IsLongest text secrets d))
]

IsLongest-same :
    (text : Text) (secrets others : List Text) (r q : Option ℕ)
    → Within secrets others
    → Within others secrets
    → IsLongest text secrets r
    → IsLongest text others q
    → r ≡ q
IsLongest-same text secrets others none none w v h k = refl
IsLongest-same text secrets others none (some n) w v h ((s, m, p, l), k) = absurd (
    ground (
      arith,
      p,
      All-contains (λ s. starts_with s text ≡ false) others s
          (All-Within (λ s. starts_with s text ≡ false) others secrets v h) m,
    ))
IsLongest-same text secrets others (some n) none w v ((s, m, p, l), h) k = absurd (
    ground (
      arith,
      p,
      All-contains (λ s. starts_with s text ≡ false) secrets s
          (All-Within (λ s. starts_with s text ≡ false) secrets others w k) m,
    ))
IsLongest-same text secrets others (some n) (some n') w v ((s, m, p, l), h) ((s', m', p', l'), h') =
    let first =
      All-contains (λ t. starts_with t text ≡ true → length t ≤ n') secrets s
        (All-Within (λ t. starts_with t text ≡ true → length t ≤ n') secrets others w h') m p in
    let second =
      All-contains (λ t. starts_with t text ≡ true → length t ≤ n) others s'
        (All-Within (λ t. starts_with t text ≡ true → length t ≤ n) others secrets v h) m' p' in
    let e : n ≡ n' = omega (arith, first, second, l, l') in ap some e

-- Of two sorted lists with the same members, the same secret is taken at a text.
pub match_length-same :
    (text : Text) (secrets others : List Text)
    → IsDescending secrets
    → IsDescending others
    → Within secrets others
    → Within others secrets
    → match_length secrets text ≡ match_length others text
match_length-same text secrets others d c w v =
    IsLongest-same text secrets others (match_length secrets text) (match_length others text) w v
      (match_length-IsLongest text secrets d) (match_length-IsLongest text others c)

-- The prepared secrets have the members of those that are given, empty ones aside.
pub secrets_for_redaction-Within :
    (given other : List Text)
    → Within given other
    → Within (secrets_for_redaction given) (secrets_for_redaction other)
unfolding secrets_for_redaction
secrets_for_redaction-Within given other w =
    let Found : Text → Type 0 = λ s. contains (secrets_for_redaction other) s ≡ true in
    let found =
      All-of_secrets_for_redaction (λ s. contains (secrets_for_redaction other) s ≡ true) other
        (Within-self (secrets_for_redaction other)) in
    let every =
      All-sort_by_length (λ s. NonEmpty s → contains (secrets_for_redaction other) s ≡ true)
        (distinct given)
        (All-distinct (λ s. NonEmpty s → contains (secrets_for_redaction other) s ≡ true) given
          (All-Within (λ s. NonEmpty s → contains (secrets_for_redaction other) s ≡ true) given
            other w found)) in
    All-apply NonEmpty (λ s. contains (secrets_for_redaction other) s ≡ true)
      (secrets_for_redaction given) every (secrets_for_redaction-NonEmpty given)
