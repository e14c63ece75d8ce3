-- ===== src/Service/Reports.antt =====
-- service.py: the reports that are made once, when they are made again.
use teamspeak_prometheus.Base.{
  ◌≡◌, ◌≢◌, refl, ap, ◌∙◌, Text, true, ◌||◌, Option, none, some, List, [], ◌∷◌, append-nil, same,
  same_refl, contains, contains-append, list_eq, nat_eq, pair_eq, option_eq, arith, Bool-cases, inl,
  inr,
}
use teamspeak_prometheus.Base.Dict
use teamspeak_prometheus.Base.Dict.{Dict}
use teamspeak_prometheus.Service.State.{ServerRecord, Host, State}
use teamspeak_prometheus.Service.Recording.{
  shared_names, duplicate_lines, names_by_id, changed_lines, again_lines, report_duplicates,
  report_status_changes, warn_one, warn_missing,
}

-- every key of the part is in `warned`
duplicate_lines-warned :
    (warned : List Text) (d : Dict Text (List Text))
    → ((name : Text) → contains (Dict.keys d) name ≡ true → contains warned name ≡ true)
    → duplicate_lines warned d ≡ []
unfolding duplicate_lines Dict.keys
duplicate_lines-warned warned [] h = refl
duplicate_lines-warned warned ((name, ids) ∷ d) h =
    rw (h name (ground (arith, same_refl name)))
      (duplicate_lines-warned warned d (λ n m. h n (ground arith)))

module _ (H : Host) where
  -- Reporting the same owners again logs nothing and changes nothing.
  pub report_duplicates_twice :
      (owners : Dict Text (List Text)) (s : State H)
      → report_duplicates H owners (report_duplicates H owners s) ≡ report_duplicates H owners s
  unfolding report_duplicates
  report_duplicates_twice owners s = rw (
    duplicate_lines-warned (Dict.keys (shared_names owners)) (shared_names owners) (λ name m. m),
    append-nil,
  )

changed_lines-same :
    (before : Dict Text Text) (names : Dict Text (Option Text)) (now : Dict Text Text)
    → Dict.NodupKeys now
    → ((id status : Text) → Dict.get now id ≡ some status → Dict.get before id ≡ some status)
    → changed_lines before names now ≡ []
unfolding changed_lines
changed_lines-same before names [] u h = refl
changed_lines-same before names ((id, status) ∷ now) (fresh, u) h =
    let here : Dict.get before id ≡ some status = h id status (unfold Dict.get in ground arith) in
    rw (here, same_refl (some status))
      (changed_lines-same before names now u
        (λ j st e. h j st (unfold Dict.get in ground (arith, fresh, e, ap (Dict.get now)))))

again_lines-none :
    (ids : List Text) (now : Dict Text Text) (names : Dict Text (Option Text))
    → ((id : Text) → contains ids id ≡ true → Dict.get now id ≢ none)
    → again_lines ids now names ≡ []
unfolding again_lines
again_lines-none [] now names h = refl
again_lines-none (id ∷ ids) now names h = ground (
  arith,
  h id (ground (arith, same_refl id)),
  again_lines-none ids now names (λ j m. h j (ground arith)),
)

get-keys : (d : Dict Text Text) (k : Text) → contains (Dict.keys d) k ≡ true → Dict.get d k ≢ none
get-keys d k m e = cc (m, Dict.contains-keys-none d k e)

module _ (H : Host) where
  -- If no virtualserver is listed twice, reporting the same ones as not online again logs nothing and
  -- changes nothing.
  pub report_status_changes_twice :
      (not_online : Dict Text Text) (servers : List ServerRecord) (s : State H)
      → Dict.NodupKeys not_online
      → report_status_changes H not_online servers (report_status_changes H not_online servers s)
        ≡ report_status_changes H not_online servers s
  unfolding report_status_changes
  report_status_changes_twice not_online servers s u =
      let names = names_by_id servers [] in
      rw (
        changed_lines-same not_online names not_online u (λ id status e. e),
        again_lines-none (Dict.keys not_online) not_online names (get-keys not_online),
        append-nil,
      )

  -- the fields of a name that were warned about
  abbrev Warned : Text → List Text → State H → Type 0
  Warned name [] s = Unit
  Warned name (field ∷ fields) s =
      (contains s.warned_missing (name, field) ≡ true) × Warned name fields s

  warn_one_of_contains :
      (name field : Text) (s : State H)
      → contains s.warned_missing (name, field) ≡ true
      → warn_one H name field s ≡ s
  unfolding warn_one
  warn_one_of_contains name field s h = rw h

  warn_missing-Warned :
      (name : Text) (fields : List Text) (s : State H)
      → Warned name fields s
      → warn_missing H name fields s ≡ s
  unfolding warn_missing
  warn_missing-Warned name [] s h = refl
  warn_missing-Warned name (field ∷ fields) s (p, h) =
      ap (warn_missing H name fields) (warn_one_of_contains name field s p)
      ∙ warn_missing-Warned name fields s h

  warn_one-contains :
      (name field : Text) (s : State H) (x : Text × Text)
      → contains (warn_one H name field s).warned_missing x
        ≡ (contains s.warned_missing x || same x (name, field))
  unfolding warn_one
  warn_one-contains name field s x = elim (Bool-cases (contains s.warned_missing (name, field))) [
    | inl e ↦ rw e (ground (arith, e, ap (contains s.warned_missing)))
    | inr e ↦ rw e (ground (arith, contains-append s.warned_missing ((name, field) ∷ []) x))
  ]

  warn_missing-contains :
      (name : Text) (fields : List Text) (s : State H) (x : Text × Text)
      → contains s.warned_missing x ≡ true
      → contains (warn_missing H name fields s).warned_missing x ≡ true
  unfolding warn_missing
  warn_missing-contains name [] s x h = h
  warn_missing-contains name (field ∷ fields) s x h =
      warn_missing-contains name fields (warn_one H name field s) x
        (rw (warn_one-contains name field s x, h))

  Warned-after :
      (name : Text) (fields : List Text) (s : State H)
      → Warned name fields (warn_missing H name fields s)
  unfolding warn_missing
  Warned-after name [] s = tt
  Warned-after name (field ∷ fields) s = (
    warn_missing-contains name fields (warn_one H name field s) (name, field)
        (ground (
          arith,
          warn_one-contains name field s (name, field),
          same_refl {A = Text × Text} (name, field),
        )),
    Warned-after name fields (warn_one H name field s),
  )

  -- Warning about the same fields of a name again logs nothing and changes nothing.
  pub warn_missing_twice :
      (name : Text) (fields : List Text) (s : State H)
      → warn_missing H name fields (warn_missing H name fields s) ≡ warn_missing H name fields s
  warn_missing_twice name fields s =
      warn_missing-Warned name fields (warn_missing H name fields s) (Warned-after name fields s)
