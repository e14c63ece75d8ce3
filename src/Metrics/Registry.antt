-- ===== src/Metrics/Registry.antt =====
-- metrics.py: the registration of the metrics. The registry of `prometheus_client` is a parameter.
use teamspeak_prometheus.Base.{
  ◌≡◌, true, false, Option, none, some, List, [], ◌∷◌, ◌++◌, Text, codes, map, any, contains,
  list_eq, nat_eq,
}
use teamspeak_prometheus.Metrics.{metrics_names, virtualserver_label}

-- `Gauge`, `Counter` and `Info`
pub data Kind : Type 0 where
  gauge counter info : Kind

-- A metric as it is registered: its kind, its name and its labels.
abbrev pub Metric : Type 0
Metric = Kind × Text × List Text

-- `CollectorRegistry`: `register` is `none` where it raises `ValueError`, `start` is
-- `metric.labels(value)`, `tell` is `info.info({key: value})`, and `taken` are the names that are registered.
pub record Registries : Type 1 where
  pub Registry : Type 0
  pub register : Metric → Registry → Option Registry
  pub start : Text → Text → Registry → Registry
  pub tell : Text → Text → Text → Registry → Registry
  pub taken : Registry → List Text

-- the names that a metric takes: its own, and those of the series that the library derives from it
abbrev pub names_of : Metric → List Text
names_of (gauge, name, labels) = name ∷ []
names_of (counter, name, labels) = name ∷ (name ++ codes "_total") ∷ (name ++ codes "_created") ∷ []
names_of (info, name, labels) = name ∷ (name ++ codes "_info") ∷ []

-- A metric is registered unless one of its names is taken, and then its names are taken.
pub record IsRegistry (R : Registries) : Type 0 where
  pub register-free :
      (m : Metric) (r : R.Registry)
      → any (λ n. contains (R.taken r) n) (names_of m) ≡ false
      → (s : R.Registry) × (R.register m r ≡ some s) × (R.taken s ≡ R.taken r ++ names_of m)
  pub register-taken :
      (m : Metric) (r : R.Registry)
      → any (λ n. contains (R.taken r) n) (names_of m) ≡ true
      → R.register m r ≡ none
  pub taken-start :
      (name label : Text) (r : R.Registry) → R.taken (R.start name label r) ≡ R.taken r
  pub taken-tell :
      (name key value : Text) (r : R.Registry) → R.taken (R.tell name key value r) ≡ R.taken r

-- `METRICS_PREFIX` and `EXPORTER_PREFIX`
abbrev pub metrics_prefix : Text
metrics_prefix = codes "teamspeak_"

abbrev pub exporter_prefix : Text
exporter_prefix = codes "teamspeak_exporter_"

-- `ERROR_REASONS`
abbrev pub error_reasons : List Text
error_reasons = codes "connection" ∷ codes "login" ∷ codes "query" ∷ codes "unexpected" ∷ []

abbrev pub passthrough : Text → Metric
passthrough name = (gauge, metrics_prefix ++ name, virtualserver_label ∷ [])

abbrev pub exporter_gauge : Text → List Text → Metric
exporter_gauge name labels = (gauge, exporter_prefix ++ name, labels)

abbrev pub build_info : Metric
build_info = (info, exporter_prefix ++ codes "build", [])

abbrev pub poll_errors : Metric
poll_errors = (counter, exporter_prefix ++ codes "poll_errors", codes "reason" ∷ [])

-- the gauges of `ExporterMetrics`, in the order of their arguments
abbrev pub exporter_gauges : List Metric
exporter_gauges =
    exporter_gauge (codes "last_poll_timestamp_seconds") []
    ∷ exporter_gauge (codes "last_successful_poll_timestamp_seconds") []
    ∷ exporter_gauge (codes "poll_success") []
    ∷ exporter_gauge (codes "poll_duration_seconds") []
    ∷ exporter_gauge (codes "missing_fields") (virtualserver_label ∷ [])
    ∷ []

module _ (R : Registries) where
  open R use {Registry, register, start, tell}

  abbrev pub and_then : Option Registry → (Registry → Option Registry) → Option Registry
  and_then none f = none
  and_then (some r) f = f r

  unfoldable pub register_all : List Metric → Registry → Option Registry
  register_all [] r = some r
  register_all (m ∷ metrics) r = and_then (register m r) (register_all metrics)

  -- `for reason in ERROR_REASONS: poll_errors.labels(reason=reason)`
  unfoldable pub start_all : List Text → Registry → Registry
  start_all [] r = r
  start_all (reason ∷ reasons) r = start_all reasons (start poll_errors.1 reason r)

  -- the registrations of `build_gauges`
  unfoldable pub register_gauges : Registry → Option Registry
  unfolding register_all
  register_gauges = register_all (map passthrough metrics_names)

  -- `build_exporter_metrics`, given `__version__`
  unfoldable pub build_exporter_metrics : Text → Registry → Option Registry
  unfolding register_all start_all
  build_exporter_metrics version r = and_then (register build_info r) (λ s.
      and_then (register poll_errors (tell build_info.1 (codes "version") version s))
        (λ t. register_all exporter_gauges (start_all error_reasons t)))

  -- what `serve` builds
  unfoldable pub build : Text → Registry → Option Registry
  unfolding register_gauges build_exporter_metrics
  build version r = and_then (register_gauges r) (build_exporter_metrics version)

-- every metric, in the order of their registration
abbrev pub all_metrics : List Metric
all_metrics = map passthrough metrics_names ++ build_info ∷ poll_errors ∷ exporter_gauges
