-- ===== src/Base/Dict.antt =====
-- Python's `dict` in insertion order, as an association list. Proofs elsewhere go by the laws.
use mathlib.Core.Path.{◌≡◌, refl}
use mathlib.Core.Bool.{true, false}
use mathlib.Core.Option.{Option, none, some}
use mathlib.Core.List.{List, [], ◌∷◌}
use native.Mathlib.Omega.{arith}
use teamspeak_prometheus.Base.Tests.{if◌then◌else◌}
use teamspeak_prometheus.Base.Equality.{Eq, same, contains}

abbrev pub Dict {ℓ κ} : Type ℓ → Type κ → Type (ℓ ⊔ κ)
Dict K V = List (K × V)

abbrev pub empty {ℓ κ} : {K : Type ℓ} {V : Type κ} → Dict K V
empty = []

unfoldable pub keys {ℓ κ} : {K : Type ℓ} {V : Type κ} → Dict K V → List K
keys [] = []
keys ((k, _) ∷ d) = k ∷ keys d

module _ {ℓ κ} {K : Type ℓ} {V : Type κ} ⦃e : Eq K⦄ where
  -- `d.get(k)`
  unfoldable pub get : Dict K V → K → Option V
  get [] k = none
  get ((j, v) ∷ d) k = if same j k then some v else get d k

  -- `d[k] = v`
  unfoldable pub put : Dict K V → K → V → Dict K V
  put [] k v = (k, v) ∷ []
  put ((j, w) ∷ d) k v = if same j k then (j, v) ∷ d else (j, w) ∷ put d k v

  -- `del d[k]`; every entry of the key goes, and a real dict has at most one
  unfoldable pub remove : Dict K V → K → Dict K V
  remove [] k = []
  remove ((j, w) ∷ d) k = let rest = remove d k in if same j k then rest else (j, w) ∷ rest

  pub get-put :
      (d : Dict K V) (k j : K) (v : V) → get (put d k v) j ≡ (if same k j then some v else get d j)
  unfolding get put
  get-put [] k j v = refl
  get-put ((i, w) ∷ d) k j v = ground (arith, get-put d k j v)

  pub get-remove :
      (d : Dict K V) (k j : K) → get (remove d k) j ≡ (if same k j then none else get d j)
  unfolding get remove
  get-remove [] k j = ground arith
  get-remove ((i, w) ∷ d) k j = ground (arith, get-remove d k j)

  pub contains-keys-none : (d : Dict K V) (k : K) → get d k ≡ none → contains (keys d) k ≡ false
  unfolding get keys
  contains-keys-none [] k h = refl
  contains-keys-none ((j, v) ∷ d) k h = ground (arith, contains-keys-none d k)

  pub contains-keys-some :
      (d : Dict K V) (k : K) {v : V} → get d k ≡ some v → contains (keys d) k ≡ true
  unfolding get keys
  contains-keys-some [] k h = cc
  contains-keys-some ((j, w) ∷ d) k {v} h = ground (arith, contains-keys-some d k {v = v})

  -- No key stands twice.
  abbrev pub NodupKeys : Dict K V → Type κ
  NodupKeys [] = Unit
  NodupKeys ((k, _) ∷ d) = (get d k ≡ none) × NodupKeys d

  pub put-NodupKeys : (d : Dict K V) (k : K) (v : V) → NodupKeys d → NodupKeys (put d k v)
  unfolding put
  put-NodupKeys [] k v h = (unfold get in refl, tt)
  put-NodupKeys ((j, w) ∷ d) k v (fresh, h) = ground (arith, put-NodupKeys d k v h, get-put d k j v)
