-- ===== src/Tests/Gauges.antt =====
-- The contract gauges at a concrete response.
use teamspeak_prometheus.Metrics.Registry.{Registries, IsRegistry, names_of, build, all_metrics}
use teamspeak_prometheus.Metrics.Registered.{meets, all_names, build-Once}
use teamspeak_prometheus.Base.{
  ℕ, ◌≡◌, refl, List, any, none, false, ◌++◌, Text, codes, ◌&&◌, if◌then◌else◌, same, contains, [],
  ◌∷◌, some, list_eq, nat_eq,
}
use teamspeak_prometheus.Base.Dict.{Dict}
use teamspeak_prometheus.Exec.{ok}
use teamspeak_prometheus.Metrics.{
  Field, sent, metrics_names, numeric, contract_values, build_gauges, update_gauges,
}
use teamspeak_prometheus.Metrics.Series.{reading, unread, build_gauges-names, update_gauges_lem}
use teamspeak_prometheus.Metrics.Staging.{stage, update_gauges-contract_values}
use teamspeak_prometheus.Tests.Fixture.{whole_numbers, memory, memory-IsLawful, uptime}

abbrev gauges : Dict Text (Dict Text ℕ)
gauges = build_gauges whole_numbers memory metrics_names []

abbrev response : Dict Text (Field ℕ)
response = (uptime, sent (some (codes "7"))) ∷ []

update_gauges_lem_example :
    ((update_gauges whole_numbers memory gauges (codes "a") response).0
      ≡ ok (unread whole_numbers memory response metrics_names))
    × ((name l : Text)
        → reading whole_numbers memory
            (update_gauges whole_numbers memory gauges (codes "a") response).1
            name
            l
          ≡ (if contains metrics_names name && same l (codes "a")
              then numeric whole_numbers response name
              else reading whole_numbers memory gauges name l))
update_gauges_lem_example =
    update_gauges_lem whole_numbers memory memory-IsLawful gauges (codes "a") response
      (build_gauges-names whole_numbers memory metrics_names [])

update_gauges-contract_values_example :
    update_gauges whole_numbers memory gauges
      (codes "a")
      (stage whole_numbers (contract_values whole_numbers response))
    ≡ update_gauges whole_numbers memory gauges (codes "a") response
update_gauges-contract_values_example =
    update_gauges-contract_values whole_numbers memory gauges (codes "a") response

-- a registry that is the list of its names
abbrev listed : Registries
listed = record {
  Registry = List Text;
  register = λ m r. if any (λ n. contains r n) (names_of m) then none else some (r ++ names_of m);
  start = λ name label r. r;
  tell = λ name key value r. r;
  taken = λ r. r;
}

listed-IsRegistry : IsRegistry listed
listed-IsRegistry = record {
  register-free = λ m r h. (r ++ names_of m, rw h refl, refl);
  register-taken = λ m r h. rw h refl;
  taken-start = λ name label r. refl;
  taken-tell = λ name key value r. refl;
}

-- the registry holds a metric of another collector
abbrev others : List Text
others = codes "python_info" ∷ []

others-free : meets others (all_names all_metrics) ≡ false
unfolding list_eq nat_eq
others-free = refl

build-Once_example :
    (s : List Text) × (build listed (codes "1.0") others ≡ some s)
    × (s ≡ others ++ all_names all_metrics)
    × (build listed (codes "1.0") s ≡ none)
build-Once_example =
    build-Once listed listed-IsRegistry (codes "1.0") (codes "1.0") others others-free
