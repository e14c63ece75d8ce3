-- ===== src/Service/Recording.antt =====
-- service.py: `_apply` and what it calls. Sets are lists in the order of insertion.
use teamspeak_prometheus.Base.{
  ℕ, Text, Option, none, some, List, [], ◌∷◌, ◌++◌, if◌then◌else◌, same, contains, length, ltb,
  list_eq, nat_eq, pair_eq, option_eq,
}
use teamspeak_prometheus.Base.Dict
use teamspeak_prometheus.Base.Dict.{Dict}
use teamspeak_prometheus.Exec.{Exec, ok, pure, continue, ◌>>=◌, ◌>>◌}
use teamspeak_prometheus.Metrics.{update_gauges, remove_series, virtualserver_label}
use teamspeak_prometheus.Metrics.Staging.{stage}
use teamspeak_prometheus.Service.State.{
  ServerRecord, Host, LogLine, duplicate_name, status_changed, online_again, field_missing,
  series_removed, Session, State,
}
use teamspeak_prometheus.Service.Reading.{get_field, str, id_key}

-- `seen.add(name)`
unfoldable pub add_name : List Text → Text → List Text
add_name seen name = if contains seen name then seen else seen ++ name ∷ []

-- `names - seen`
unfoldable pub without : List Text → List Text → List Text
without [] seen = []
without (name ∷ names) seen =
    let rest = without names seen in if contains seen name then rest else name ∷ rest

-- `{name: ids for name, ids in owners.items() if len(ids) > 1}`
unfoldable pub shared_names : Dict Text (List Text) → Dict Text (List Text)
shared_names [] = []
shared_names ((name, ids) ∷ owners) =
    let rest = shared_names owners in if ltb 1 (length ids) then (name, ids) ∷ rest else rest

-- the warnings of `_report_duplicates`
unfoldable pub duplicate_lines : List Text → Dict Text (List Text) → List LogLine
duplicate_lines warned [] = []
duplicate_lines warned ((name, ids) ∷ duplicates) =
    let rest = duplicate_lines warned duplicates in
    if contains warned name then rest else duplicate_name name ids ∷ rest

-- `names` of `_report_status_changes`
unfoldable pub names_by_id : List ServerRecord → Dict Text (Option Text) → Dict Text (Option Text)
names_by_id [] names = names
names_by_id (server ∷ servers) names =
    names_by_id servers
      (Dict.put names (str (get_field server id_key)) (get_field server virtualserver_label))

abbrev pub name_of : Dict Text (Option Text) → Text → Option Text
name_of names id = elim (Dict.get names id) [ none ↦ none | some name ↦ name ]

-- the first loop of `_report_status_changes`
unfoldable pub changed_lines :
    Dict Text Text → Dict Text (Option Text) → Dict Text Text → List LogLine
changed_lines before names [] = []
changed_lines before names ((id, status) ∷ now) =
    let rest = changed_lines before names now in
    if same (Dict.get before id) (some status)
    then rest
    else status_changed id (name_of names id) status ∷ rest

-- the second loop, over `before.keys() - now.keys()`
unfoldable pub again_lines : List Text → Dict Text Text → Dict Text (Option Text) → List LogLine
again_lines [] now names = []
again_lines (id ∷ ids) now names =
    let rest = again_lines ids now names in
    elim (Dict.get now id) [
      | some status ↦ rest
      | none ↦ elim (Dict.get names id) [ none ↦ rest | some name ↦ online_again id name ∷ rest ]
    ]

module _ (H : Host) where
  open H use {floats, prometheus}

  -- `_report_duplicates`
  unfoldable pub report_duplicates : Dict Text (List Text) → State H → State H
  unfolding shared_names duplicate_lines
  report_duplicates owners s =
      let duplicates = shared_names owners in
      record s {
        warned_duplicates = Dict.keys duplicates;
        log = s.log ++ duplicate_lines s.warned_duplicates duplicates;
      }

  -- `_report_status_changes`
  unfoldable pub report_status_changes : Dict Text Text → List ServerRecord → State H → State H
  unfolding names_by_id changed_lines again_lines
  report_status_changes not_online servers s =
      let names = names_by_id servers [] in
      record s {
        not_online = not_online;
        log =
            s.log
            ++ (changed_lines s.not_online names not_online
                ++ again_lines (Dict.keys s.not_online) not_online names);
      }

  -- one round of the loop of `_record` over the skipped fields: each is warned about once
  unfoldable pub warn_one : Text → Text → State H → State H
  warn_one name missing s = if contains s.warned_missing (name, missing) then s else record s {
    warned_missing = s.warned_missing ++ (name, missing) ∷ [];
    log = s.log ++ field_missing name missing ∷ [];
  }

  unfoldable pub warn_missing : Text → List Text → State H → State H
  warn_missing name [] s = s
  warn_missing name (missing ∷ skipped) s = warn_missing name skipped (warn_one name missing s)

  abbrev pub set_missing : Text → ℕ → State H → State H
  set_missing name n s = record s {
    exporter = record (s.exporter) {
      missing_fields = prometheus.set s.exporter.missing_fields name (floats.of_ℕ n);
    };
  }

  -- `_record`
  unfoldable pub record_reading : Text → Dict Text floats.Float → Exec (State H) (Unit {0})
  record_reading name values s =
      let (r, gauges) = update_gauges floats prometheus s.gauges name (stage floats values) in
      continue (r, record s { gauges = gauges })
        (λ skipped t. (ok tt, warn_missing name skipped (set_missing name (length skipped) t)))

  -- the loop of `_apply`, which returns `seen`
  unfoldable pub record_all :
      List (Text × Dict Text floats.Float) → List Text → Exec (State H) (List Text)
  record_all [] seen = pure seen
  record_all ((name, values) ∷ readings) seen = do
    record_reading name values
    record_all readings (add_name seen name)

  -- the inner loop of `_forget`
  unfoldable pub remove_everywhere : Dict Text prometheus.Gauge → Text → Dict Text prometheus.Gauge
  remove_everywhere [] name = []
  remove_everywhere ((metric, gauge) ∷ gauges) name =
      (metric, remove_series floats prometheus gauge name) ∷ remove_everywhere gauges name

  unfoldable pub drop_warned : Text → List (Text × Text) → List (Text × Text)
  drop_warned name [] = []
  drop_warned name ((n, field) ∷ warned) =
      let rest = drop_warned name warned in if same n name then rest else (n, field) ∷ rest

  -- one round of `_forget`
  unfoldable pub forget_one : Text → State H → State H
  unfolding remove_everywhere drop_warned
  forget_one name s = record s {
    gauges = remove_everywhere s.gauges name;
    exporter = record (s.exporter) {
      missing_fields = remove_series floats prometheus s.exporter.missing_fields name;
    };
    warned_missing = drop_warned name s.warned_missing;
    log = s.log ++ series_removed name ∷ [];
  }

  -- `_forget`
  unfoldable pub forget : List Text → State H → State H
  forget [] s = s
  forget (name ∷ names) s = forget names (forget_one name s)

  -- what follows the loop of `_apply`
  unfoldable pub retire : Session floats.Float → List Text → State H → State H
  retire session seen s =
      let reported =
        report_status_changes session.not_online session.servers
          (report_duplicates session.owners s) in
      record (forget (without s.known_virtualservers seen) reported) { known_virtualservers = seen }

  -- `_apply`
  unfoldable pub apply_session : Session floats.Float → Exec (State H) (Unit {0})
  apply_session session = do
    seen ← record_all session.readings []
    (λ s. (ok tt, retire session seen s))
