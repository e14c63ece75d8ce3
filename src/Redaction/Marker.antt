-- ===== src/Redaction/Marker.antt =====
-- redaction.py: when `_marker_avoiding` finds a character, and what it returns.
use teamspeak_prometheus.Base.{
  ℕ, zero, suc, ◌+◌, ◌<◌, ◌≤◌, ◌≡◌, ◌⊎◌, inl, inr, ◌≢◌, refl, Bool, true, false, ◌==◌, Option, none,
  some, List, [], ◌∷◌, Text, codes, replicate, any, arith, All, Lacks, Bool-cases, sym, contains,
  nat_eq,
}
use teamspeak_prometheus.Redaction.{
  is_used, is_candidate, first_of_list, first_of_range, or_in_range, marker_among,
}

Lacks-of_any : (c : ℕ) (s : Text) → any (λ d. d == c) s ≡ false → Lacks c s
Lacks-of_any c [] h = tt
Lacks-of_any c (d ∷ s) h = (ground arith, Lacks-of_any c s (ground arith))

is_used-Lacks : (secrets : List Text) (c : ℕ) → is_used secrets c ≡ false → All (Lacks c) secrets
unfolding is_used
is_used-Lacks [] c h = tt
is_used-Lacks (s ∷ secrets) c h =
    (Lacks-of_any c s (ground arith), is_used-Lacks secrets c (ground arith))

any_of_Lacks : (c : ℕ) (s : Text) → Lacks c s → any (λ d. d == c) s ≡ false
any_of_Lacks c [] h = refl
any_of_Lacks c (d ∷ s) (ne, h) = ground (arith, any_of_Lacks c s h)

is_used_of_Lacks : (secrets : List Text) (c : ℕ) → All (Lacks c) secrets → is_used secrets c ≡ false
unfolding is_used
is_used_of_Lacks [] c h = refl
is_used_of_Lacks (s ∷ secrets) c (p, h) =
    ground (arith, any_of_Lacks c s p, is_used_of_Lacks secrets c h)

-- What `_marker_avoiding` may pick: a printable character of no secret, `#`, `~`, `^`, `%` or from
-- U+2580 on.
abbrev pub InRange : ℕ → ℕ → Type 0
InRange left c = (contains (codes "#~^%") c ≡ true) ⊎ ((0x2580 ≤ c) × (c < 0x2580 + left))

module _ (is_printable : ℕ → Bool) where
  pub record IsMarker (left : ℕ) (secrets : List Text) (c : ℕ) : Type 0 where
    pub unused : All (Lacks c) secrets
    pub shown : is_printable c ≡ true
    pub in_range : InRange left c

  is_candidate_of_IsMarker :
      (left : ℕ) (secrets : List Text) (c : ℕ)
      → IsMarker left secrets c
      → is_candidate is_printable secrets c ≡ true
  unfolding is_candidate
  is_candidate_of_IsMarker left secrets c h =
      ground (arith, is_used_of_Lacks secrets c h.unused, h.shown)

  is_candidate-used :
      (secrets : List Text) (c : ℕ)
      → is_candidate is_printable secrets c ≡ true
      → (is_used secrets c ≡ false) × (is_printable c ≡ true)
  unfolding is_candidate
  is_candidate-used secrets c h = ground arith

  -- a search of a range that holds a candidate finds one in the range
  first_of_range-some :
      (secrets : List Text) (left point c : ℕ)
      → point ≤ c
      → c < point + left
      → is_candidate is_printable secrets c ≡ true
      → (d : ℕ) × (first_of_range is_printable secrets left point ≡ some d)
        × (is_candidate is_printable secrets d ≡ true)
        × (point ≤ d)
        × (d < point + left)
  unfolding first_of_range
  first_of_range-some secrets zero point c low high h = absurd (omega arith)
  first_of_range-some secrets (suc left) point c low high h =
      elim (Bool-cases (is_candidate is_printable secrets point)) [
        | inl e ↦ (point, rw (e, first_of_range), e, omega arith, omega arith)
        | inr e ↦
            let below : suc point ≤ c = ground (arith, h, e) in
            let (d, p, q, r, t) =
              first_of_range-some secrets left (point + 1) c (omega arith) (omega arith) h in
            (d, rw (e, first_of_range) p, q, omega arith, omega arith)
      ]

  first_of_list-some :
      (secrets : List Text) (s : Text) {d : ℕ}
      → first_of_list is_printable secrets s ≡ some d
      → (is_candidate is_printable secrets d ≡ true) × (contains s d ≡ true)
  unfolding first_of_list
  first_of_list-some secrets [] h = cc
  first_of_list-some secrets (c ∷ s) {d} h =
      elim (Bool-cases (is_candidate is_printable secrets c)) [
        | inl e ↦
            let same_point : c ≡ d = ground (arith, h, e) in rw (← same_point) (e, ground arith)
        | inr e ↦
            let (p, q) = first_of_list-some secrets s {d = d} (ground (arith, h, e)) in
            (p, ground (arith, q))
      ]

  first_of_list-contains :
      (secrets : List Text) (s : Text) (c : ℕ)
      → is_candidate is_printable secrets c ≡ true
      → contains s c ≡ true
      → first_of_list is_printable secrets s ≢ none
  unfolding first_of_list
  first_of_list-contains secrets [] c h m = cc
  first_of_list-contains secrets (d ∷ s) c h m = elim (nat_eq.dec c d) [
    | yes e ↦ (let good = rw e at h in rw (good, first_of_list) (cc))
    | no e ↦ ground (arith, first_of_list-contains secrets s c h)
  ]

  -- what is found is a marker
  IsMarker_of_candidate :
      (left : ℕ) (secrets : List Text) (d : ℕ)
      → is_candidate is_printable secrets d ≡ true
      → InRange left d
      → IsMarker left secrets d
  IsMarker_of_candidate left secrets d h r =
      let (unused, shown) = is_candidate-used secrets d h in
      record { unused = is_used-Lacks secrets d unused; shown = shown; in_range = r }

  or_in_range-some :
      (left : ℕ) (secrets : List Text) (c : ℕ)
      → IsMarker left secrets c
      → (o : Option ℕ) → o ≡ first_of_list is_printable secrets (codes "#~^%")
      → (d : ℕ) × (or_in_range is_printable secrets left o ≡ some d) × IsMarker left secrets d
  or_in_range-some left secrets c h (some d) e =
      let (p, q) = first_of_list-some secrets (codes "#~^%") {d = d} (sym e) in
      (d, refl, IsMarker_of_candidate left secrets d p (inl q))
  or_in_range-some left secrets c h none e =
      let found = is_candidate_of_IsMarker left secrets c h in
      let in_rest : (0x2580 ≤ c) × (c < 0x2580 + left) = elim h.in_range [
        | inl m ↦ absurd (first_of_list-contains secrets (codes "#~^%") c found m (sym e))
        | inr r ↦ r
      ] in
      let (d, p, q, low, high) =
        first_of_range-some secrets left 0x2580 c in_rest.0 in_rest.1 found in
      (d, p, IsMarker_of_candidate left secrets d q (inr (low, high)))

  -- If there is a marker at all, one is found.
  pub marker_among-some :
      (left : ℕ) (secrets : List Text) (c : ℕ)
      → IsMarker left secrets c
      → (d : ℕ) × (marker_among is_printable left secrets ≡ some (replicate 8 d))
        × IsMarker left secrets d
  unfolding marker_among
  marker_among-some left secrets c h =
      let (d, p, q) = or_in_range-some left secrets c h _ refl in (d, rw p, q)
