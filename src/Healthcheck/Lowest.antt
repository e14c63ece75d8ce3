-- ===== src/Healthcheck/Lowest.antt =====
-- healthcheck.py: which process `find_exporter` takes.
use mathlib.Core.List.{Memᴰ}
use teamspeak_prometheus.Base.{
  ℕ, ◌≡◌, ◌≢◌, ◌≤◌, ◌==◌, leb, ◌⊎◌, inl, inr, refl, Option, none, some, List, [], ◌∷◌, Text,
  Option-cases, Bool-cases, All, All-mono, arith,
}
use teamspeak_prometheus.Healthcheck.{
  Process, Proc, Exporter, exporter_of, insert_by_pid, sort_by_pid, first_exporter, find_exporter,
}

-- No process comes after one with a larger number.
abbrev Sorted : List Process → Type 0
Sorted [] = Unit
Sorted (p ∷ sorted) = All (λ q. p.pid ≤ q.pid) sorted × Sorted sorted

module _ {ℓ} (P : Process → Type ℓ) where
  All-insert_by_pid : (p : Process) (l : List Process) → P p → All P l → All P (insert_by_pid p l)
  unfolding insert_by_pid
  All-insert_by_pid p [] h _ = (h, tt)
  All-insert_by_pid p (q ∷ l) h (k, hs) = elim (Bool-cases (leb p.pid q.pid)) [
    | inl e ↦ rw (insert_by_pid, e) (h, (k, hs))
    | inr e ↦ rw (insert_by_pid, e) (k, All-insert_by_pid p l h hs)
  ]

  All-of_insert_by_pid :
      (p : Process) (l : List Process) → All P (insert_by_pid p l) → P p × All P l
  unfolding insert_by_pid
  All-of_insert_by_pid p [] (h, _) = (h, tt)
  All-of_insert_by_pid p (q ∷ l) h = elim (Bool-cases (leb p.pid q.pid)) [
    | inl e ↦ rw (insert_by_pid, e) at h
    | inr e ↦
        let (k, rest) = rw (insert_by_pid, e) at h in
        let (own, hs) = All-of_insert_by_pid p l rest in (own, (k, hs))
  ]

  All-sort_by_pid : (l : List Process) → All P l → All P (sort_by_pid l)
  unfolding sort_by_pid
  All-sort_by_pid [] _ = tt
  All-sort_by_pid (p ∷ l) (h, hs) = All-insert_by_pid p (sort_by_pid l) h (All-sort_by_pid l hs)

  All-of_sort_by_pid : (l : List Process) → All P (sort_by_pid l) → All P l
  unfolding sort_by_pid
  All-of_sort_by_pid [] _ = tt
  All-of_sort_by_pid (p ∷ l) h =
      let (own, hs) = All-of_insert_by_pid p (sort_by_pid l) h in (own, All-of_sort_by_pid l hs)

insert_by_pid-Sorted : (p : Process) (l : List Process) → Sorted l → Sorted (insert_by_pid p l)
unfolding insert_by_pid
insert_by_pid-Sorted p [] _ = (tt, tt)
insert_by_pid-Sorted p (q ∷ l) (below, sorted) = elim (Bool-cases (leb p.pid q.pid)) [
  | inl e ↦
      let le : p.pid ≤ q.pid = ground (arith, e) in
      rw (insert_by_pid, e)
        (
          (
            le,
            All-mono (λ r. q.pid ≤ r.pid) (λ r. p.pid ≤ r.pid) l (λ r h. omega (arith, h, le))
                below,
          ),
          (below, sorted),
        )
  | inr e ↦
      rw (insert_by_pid, e)
        (
          All-insert_by_pid (λ r. q.pid ≤ r.pid) p l (ground (arith, e)) below,
          insert_by_pid-Sorted p l sorted,
        )
]

sort_by_pid-Sorted : (l : List Process) → Sorted (sort_by_pid l)
unfolding sort_by_pid
sort_by_pid-Sorted [] = tt
sort_by_pid-Sorted (p ∷ l) = insert_by_pid-Sorted p (sort_by_pid l) (sort_by_pid-Sorted l)

All-Memᴰ : (l : List Process) → All (λ p. Memᴰ p l) l
All-Memᴰ [] = tt
All-Memᴰ (p ∷ l) = (
  Memᴰ.head refl,
  All-mono (λ q. Memᴰ q l) (λ q. Memᴰ q (p ∷ l)) l (λ q m. Memᴰ.tail m) (All-Memᴰ l),
)

module _ (decode : List ℕ → Text) (own_pid : ℕ) where
  -- The process is the healthcheck, does not run the exporter, or cannot be read.
  abbrev pub Idle : Process → Type 0
  Idle q = (q.pid ≡ own_pid) ⊎ (exporter_of decode q ≡ none)

  -- the process runs the exporter
  abbrev pub Runs : Process → Exporter → Type 0
  Runs p e = (p.pid ≢ own_pid) × (exporter_of decode p ≡ some e)

  -- what is found among processes which all have P
  abbrev pub FoundWith : (Process → Type 0) → List Process → Option Exporter → Type 0
  FoundWith P entries none = All Idle entries
  FoundWith P entries (some e) =
      (p : Process) × P p × Runs p e × All (λ q. Idle q ⊎ (p.pid ≤ q.pid)) entries

  FoundWith-next :
      (P : Process → Type 0) (p : Process) (entries : List Process) (o : Option Exporter)
      → Idle p
      → FoundWith P entries o
      → FoundWith P (p ∷ entries) o
  FoundWith-next P p entries none idle h = (idle, h)
  FoundWith-next P p entries (some e) idle (q, has, runs, lowest) =
      (q, has, runs, (inl idle, lowest))

  first_exporter-FoundWith :
      (P : Process → Type 0) (l : List Process)
      → All P l
      → Sorted l
      → FoundWith P l (first_exporter decode own_pid l)
  unfolding first_exporter
  first_exporter-FoundWith P [] _ _ = tt
  first_exporter-FoundWith P (p ∷ l) (h, hs) (below, sorted) =
      let later = first_exporter-FoundWith P l hs sorted in
      elim (Bool-cases (p.pid == own_pid)) [
        | inl e ↦
            rw (first_exporter, e)
              (FoundWith-next P p l (first_exporter decode own_pid l) (inl (ground (arith, e)))
                later)
        | inr e ↦ elim (Option-cases (exporter_of decode p)) [
          | inl q ↦
              rw (first_exporter, e, q)
                (FoundWith-next P p l (first_exporter decode own_pid l) (inr q) later)
          | inr (x, q) ↦
              let lowest =
                All-mono (λ r. p.pid ≤ r.pid) (λ r. Idle r ⊎ (p.pid ≤ r.pid)) l (λ r k. inr k)
                  below in
              rw (first_exporter, e, q) (p, h, (ground (arith, e), q), (inr (omega arith), lowest))
        ]
      ]

  FoundWith-of_sort_by_pid :
      (P : Process → Type 0) (l : List Process) (o : Option Exporter)
      → FoundWith P (sort_by_pid l) o
      → FoundWith P l o
  FoundWith-of_sort_by_pid P l none h = All-of_sort_by_pid Idle l h
  FoundWith-of_sort_by_pid P l (some e) (p, has, runs, lowest) =
      (p, has, runs, All-of_sort_by_pid (λ q. Idle q ⊎ (p.pid ≤ q.pid)) l lowest)

  -- the exporter of a listing of `/proc`
  abbrev pub Found : Proc → Option Exporter → Type 0
  Found none o = o ≡ none
  Found (some entries) o = FoundWith (λ p. Memᴰ p entries) entries o

  -- Of the processes of `/proc`, in whatever order they are listed, the healthcheck takes one that runs
  -- the exporter, is not itself and can be read, and no other such process has a lower number; it
  -- takes none only if there is none, or if `/proc` cannot be listed.
  pub find_exporter-Found : (proc : Proc) → Found proc (find_exporter decode own_pid proc)
  unfolding find_exporter
  find_exporter-Found none = refl
  find_exporter-Found (some entries) =
      let P : Process → Type 0 = λ p. Memᴰ p entries in
      FoundWith-of_sort_by_pid P entries (first_exporter decode own_pid (sort_by_pid entries)) (
        first_exporter-FoundWith P (sort_by_pid entries)
          (All-sort_by_pid P entries (All-Memᴰ entries)) (sort_by_pid-Sorted entries))
