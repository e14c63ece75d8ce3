-- ===== src/Metrics/Staging.antt =====
-- metrics.py: what a poll keeps of a response until it records it.
use teamspeak_prometheus.Base.{
  ◌+◌, ◌≤◌, ◌≡◌, refl, ap, Text, true, Option, none, some, List, [], ◌∷◌, if◌then◌else◌, same_refl,
  contains, list_eq, nat_eq, arith, All, Option-cases, inl, inr, length,
}
use teamspeak_prometheus.Base.Dict
use teamspeak_prometheus.Base.Dict.{Dict, get-put}
use teamspeak_prometheus.Metrics.{
  Floats, Prometheus, Field, staged, metrics_names, numeric, contract_loop, contract_values,
  update_loop, update_gauges,
}

module _ (F : Floats) where
  open F use {Float}

  -- the staged numbers as a mapping of objects
  unfoldable pub stage : Dict Text Float → Dict Text (Field Float)
  stage [] = []
  stage ((name, v) ∷ values) = (name, staged v) ∷ stage values

  pub numeric-stage :
      (values : Dict Text Float) (name : Text)
      → numeric F (stage values) name ≡ Dict.get values name
  unfolding numeric stage Dict.get
  numeric-stage [] name = refl
  numeric-stage ((n, v) ∷ values) name = ground (arith, numeric-stage values name)

  get-empty : (n : Text) → Dict.get {V = Float} [] n ≡ none
  unfolding Dict.get
  get-empty n = refl

  abbrev or_else : Option Float → Option Float → Option Float
  or_else none o = o
  or_else (some v) o = some v

  module _ (serverinfo : Dict Text (Field Float)) where
    get-contract_loop :
        (names : List Text) (values : Dict Text Float) (n : Text)
        → Dict.get (contract_loop F serverinfo names values) n ≡ (
            if contains names n
            then or_else (numeric F serverinfo n) (Dict.get values n)
            else Dict.get values n)
    unfolding contract_loop
    get-contract_loop [] values n = refl
    get-contract_loop (name ∷ names) values n = elim (Option-cases (numeric F serverinfo name)) [
      | inl e ↦
          rw (e, contract_loop)
            (ground (arith, get-contract_loop names values n, e, ap (numeric F serverinfo)))
      | inr (v, e) ↦
          rw (e, contract_loop)
            (ground (
              arith,
              get-contract_loop names (Dict.put values name v) n,
              e,
              get-put values name n v,
              ap (numeric F serverinfo),
            ))
    ]

    numeric-contract_values :
        (n : Text)
        → numeric F (stage (contract_values F serverinfo)) n
          ≡ (if contains metrics_names n then numeric F serverinfo n else none)
    numeric-contract_values n = rw numeric-stage (
        unfold contract_values in ground (arith, get-contract_loop metrics_names [] n, get-empty n))

length-put :
    {V : Type 0} (d : Dict Text V) (k : Text) (v : V) → length (Dict.put d k v) ≤ length d + 1
unfolding Dict.put
length-put [] k v = omega arith
length-put ((j, w) ∷ d) k v = ground (arith, length-put d k v)

length-contract_loop :
    (F : Floats) (serverinfo : Dict Text (Field F.Float)) (names : List Text)
    (values : Dict Text F.Float)
    → length (contract_loop F serverinfo names values) ≤ length values + length names
unfolding contract_loop
length-contract_loop F serverinfo [] values = omega arith
length-contract_loop F serverinfo (name ∷ names) values =
    elim (Option-cases (numeric F serverinfo name)) [
      | inl e ↦
          rw (e, contract_loop) (omega (arith, length-contract_loop F serverinfo names values))
      | inr (v, e) ↦
          rw (e, contract_loop)
            (omega (
              arith,
              length-contract_loop F serverinfo names (Dict.put values name v),
              length-put values name v,
            ))
    ]

-- However large the response, at most 41 numbers of it are kept.
pub length-contract_values :
    (F : Floats) (serverinfo : Dict Text (Field F.Float))
    → length (contract_values F serverinfo) ≤ 41
unfolding contract_values
length-contract_values F serverinfo = length-contract_loop F serverinfo metrics_names []

module _ (F : Floats) (P : Prometheus F.Float) where
  -- the loop reads nothing but the numbers of its names
  update_loop-numeric :
      (label : Text) (a b : Dict Text (Field F.Float)) (names skipped : List Text)
      (gauges : Dict Text P.Gauge)
      → All (λ n. numeric F a n ≡ numeric F b n) names
      → update_loop F P label a names skipped gauges ≡ update_loop F P label b names skipped gauges
  unfolding update_loop
  update_loop-numeric label a b [] skipped gauges h = refl
  update_loop-numeric label a b (name ∷ names) skipped gauges (p, h) =
      elim (Option-cases (Dict.get gauges name)) [
        | inl e ↦ rw (e, update_loop)
        | inr (g, e) ↦ elim (Option-cases (numeric F b name)) [
          | inl q ↦ rw (e, update_loop, p, q) (update_loop-numeric label a b names _ _ h)
          | inr (v, q) ↦ rw (e, update_loop, p, q) (update_loop-numeric label a b names _ _ h)
        ]
      ]

All-of_contains {ℓ} :
    (P : Text → Type ℓ) (names : List Text)
    → ((n : Text) → contains names n ≡ true → P n)
    → All P names
All-of_contains P [] f = tt
All-of_contains P (name ∷ names) f =
    (f name (ground (arith, same_refl name)), All-of_contains P names (λ n m. f n (ground arith)))

-- Recording the staged numbers of a response has the result and the effect of recording the
-- response itself.
pub update_gauges-contract_values :
    (F : Floats) (P : Prometheus F.Float) (gauges : Dict Text P.Gauge) (label : Text)
    (serverinfo : Dict Text (Field F.Float))
    → update_gauges F P gauges label (stage F (contract_values F serverinfo))
      ≡ update_gauges F P gauges label serverinfo
unfolding update_gauges
update_gauges-contract_values F P gauges label serverinfo =
    update_loop-numeric F P label (stage F (contract_values F serverinfo)) serverinfo metrics_names
      [] gauges
      (All-of_contains
        (λ n. numeric F (stage F (contract_values F serverinfo)) n ≡ numeric F serverinfo n)
        metrics_names (λ n m. rw (numeric-contract_values F serverinfo, m)))
