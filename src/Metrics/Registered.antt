-- ===== src/Metrics/Registered.antt =====
-- metrics.py: the metrics are registered once, and no two of them have a name in common.
use teamspeak_prometheus.Base.{
  ◌≡◌, ◌∙◌, refl, sym, ap, Bool, true, false, not, ◌&&◌, ◌||◌, Option, none, some, List, [], ◌∷◌,
  ◌++◌, Text, codes, map, any, drop, contains, contains-append, same_refl, arith, list_eq, nat_eq,
  append_assoc, append-nil,
}
use teamspeak_prometheus.Metrics.{metrics_names}
use teamspeak_prometheus.Metrics.Registry.{
  Metric, Registries, names_of, IsRegistry, error_reasons, passthrough, build_info, poll_errors,
  exporter_gauges, and_then, register_all, start_all, register_gauges, build_exporter_metrics,
  build, all_metrics,
}

-- every name that the metrics take
abbrev pub all_names : List Metric → List Text
all_names [] = []
all_names (m ∷ metrics) = names_of m ++ all_names metrics

-- whether a name is among those
abbrev pub meets : List Text → List Text → Bool
meets taken names = any (λ n. contains taken n) names

-- the metrics can be registered one after the other
fresh : List Text → List Metric → Bool
fresh taken [] = true
fresh taken (m ∷ metrics) = not (meets taken (names_of m)) && fresh (taken ++ names_of m) metrics

meets-append_right :
    (taken xs ys : List Text) → meets taken (xs ++ ys) ≡ (meets taken xs || meets taken ys)
meets-append_right taken [] ys = refl
meets-append_right taken (x ∷ xs) ys = ground (arith, meets-append_right taken xs ys)

meets-append :
    (base taken names : List Text)
    → meets (base ++ taken) names ≡ (meets base names || meets taken names)
meets-append base taken [] = refl
meets-append base taken (n ∷ names) =
    ground (arith, contains-append base taken n, meets-append base taken names)

fresh-base :
    (base taken : List Text) (metrics : List Metric)
    → meets base (all_names metrics) ≡ false
    → fresh taken metrics ≡ true
    → fresh (base ++ taken) metrics ≡ true
unfolding fresh
fresh-base base taken [] h f = refl
fresh-base base taken (m ∷ metrics) h f =
    let split = meets-append_right base (names_of m) (all_names metrics) in
    let here : meets (base ++ taken) (names_of m) ≡ false =
      ground (arith, split, h, f, meets-append base taken (names_of m)) in
    let later =
      fresh-base base (taken ++ names_of m) metrics (ground (arith, split, h))
        (ground (arith, f)) in
    rw (here, append_assoc base taken (names_of m)) later

fresh-append :
    (taken : List Text) (xs ys : List Metric)
    → fresh taken (xs ++ ys) ≡ true
    → (fresh taken xs ≡ true) × (fresh (taken ++ all_names xs) ys ≡ true)
unfolding fresh
fresh-append taken [] ys h = (refl, rw (append-nil taken) h)
fresh-append taken (m ∷ xs) ys h =
    let (f, g) = fresh-append (taken ++ names_of m) xs ys (ground (arith, h)) in
    (ground (arith, h, f), rw (sym (append_assoc taken (names_of m) (all_names xs))) g)

meets-first : (base names : List Text) (n : Text) → meets (base ++ n ∷ names) (n ∷ []) ≡ true
meets-first base names n = ground (arith, contains-append base (n ∷ names) n, same_refl n)

all_fresh : fresh [] all_metrics ≡ true
unfolding fresh list_eq nat_eq
all_fresh = refl

module _ (R : Registries) (L : IsRegistry R) where
  open R use {Registry, register, start, tell, taken}

  -- a registration that succeeds, and takes the names of the metrics
  abbrev Registers : List Metric → Registry → Option Registry → Type 0
  Registers metrics r o = (s : Registry) × (o ≡ some s) × (taken s ≡ taken r ++ all_names metrics)

  register-Registers :
      (m : Metric) (metrics : List Metric) (r : Registry)
      → fresh (taken r) (m ∷ metrics) ≡ true
      → (s : Registry) × (register m r ≡ some s)
        × (taken s ≡ taken r ++ names_of m)
        × (fresh (taken s) metrics ≡ true)
  unfolding fresh
  register-Registers m metrics r h =
      let (s, e, t) = L.register-free m r (ground (arith, h)) in (s, e, t, rw t (ground (arith, h)))

  register_all-Registers :
      (metrics : List Metric) (r : Registry)
      → fresh (taken r) metrics ≡ true
      → Registers metrics r (register_all R metrics r)
  unfolding register_all
  register_all-Registers [] r h = (r, refl, sym (append-nil (taken r)))
  register_all-Registers (m ∷ metrics) r h =
      let (s, e, t, f) = register-Registers m metrics r h in
      let (u, g, v) = register_all-Registers metrics s f in
      (
        u,
        rw (register_all, e) g,
        v
            ∙ ap (λ l. l ++ all_names metrics) t
            ∙ append_assoc (taken r) (names_of m) (all_names metrics),
      )

  taken-start_all : (reasons : List Text) (r : Registry) → taken (start_all R reasons r) ≡ taken r
  unfolding start_all
  taken-start_all [] r = refl
  taken-start_all (reason ∷ reasons) r =
      taken-start_all reasons (start poll_errors.1 reason r) ∙ L.taken-start poll_errors.1 reason r

  abbrev exporter_metrics : List Metric
  exporter_metrics = build_info ∷ poll_errors ∷ exporter_gauges

  build_exporter_metrics-Registers :
      (version : Text) (r : Registry)
      → fresh (taken r) exporter_metrics ≡ true
      → Registers exporter_metrics r (build_exporter_metrics R version r)
  unfolding build_exporter_metrics
  build_exporter_metrics-Registers version r h =
      let (s, e, t, f) = register-Registers build_info (poll_errors ∷ exporter_gauges) r h in
      let s' = tell build_info.1 (codes "version") version s in
      let told = L.taken-tell build_info.1 (codes "version") version s in
      let (u, g, v, k) = register-Registers poll_errors exporter_gauges s' (rw told f) in
      let u' = start_all R error_reasons u in
      let started = taken-start_all error_reasons u in
      let (w, i, j) = register_all-Registers exporter_gauges u' (rw started k) in
      (
        w,
        rw (build_exporter_metrics, e, g) i,
        j
            ∙ ap (λ l. l ++ all_names exporter_gauges)
                (started ∙ v ∙ ap (λ l. l ++ names_of poll_errors) (told ∙ t))
            ∙ append_assoc (taken r ++ names_of build_info) (names_of poll_errors)
                (all_names exporter_gauges)
            ∙ append_assoc (taken r) (names_of build_info)
                (names_of poll_errors ++ all_names exporter_gauges),
      )

  -- a metric whose name is taken is not registered again
  register_all-taken :
      (m : Metric) (metrics : List Metric) (r : Registry)
      → meets (taken r) (names_of m) ≡ true
      → register_all R (m ∷ metrics) r ≡ none
  unfolding register_all
  register_all-taken m metrics r h = rw (register_all, L.register-taken m r h) refl

  build-Registers :
      (version : Text) (r : Registry)
      → fresh (taken r) all_metrics ≡ true
      → Registers all_metrics r (build R version r)
  unfolding build register_gauges
  build-Registers version r h =
      let gauges = map passthrough metrics_names in
      let (f, g) = fresh-append (taken r) gauges exporter_metrics h in
      let (s, e, t) = register_all-Registers gauges r f in
      let (u, i, v) = build_exporter_metrics-Registers version s (rw t g) in
      (
        u,
        rw (build, e) i,
        v
            ∙ ap (λ l. l ++ all_names exporter_metrics) t
            ∙ append_assoc (taken r) (all_names gauges) (all_names exporter_metrics),
      )

  gauges-taken :
      (name : Text) (names : List Text) (base more : List Text) (r : Registry)
      → taken r ≡ base ++ (passthrough name).1 ∷ more
      → register_all R (map passthrough (name ∷ names)) r ≡ none
  gauges-taken name names base more r e =
      register_all-taken (passthrough name) (map passthrough names) r
        (rw e (meets-first base more (passthrough name).1))

  build-again :
      (again : Text) (base more : List Text) (r : Registry)
      → taken r
        ≡ base ++ (passthrough (codes "connection_bandwidth_received_last_minute_total")).1 ∷ more
      → build R again r ≡ none
  unfolding build register_gauges
  build-again again base more r e =
      ap (λ o. and_then R o (build_exporter_metrics R again))
        (gauges-taken (codes "connection_bandwidth_received_last_minute_total")
          (drop 1 metrics_names) base more r e)

  -- In a registry in which none of their names is taken, the metrics of `serve` can be built, and exactly
  -- their names are then taken besides those before. They cannot be built there a second time.
  pub build-Once :
      (version again : Text) (r : Registry)
      → meets (taken r) (all_names all_metrics) ≡ false
      → (s : Registry) × (build R version r ≡ some s)
        × (taken s ≡ taken r ++ all_names all_metrics)
        × (build R again s ≡ none)
  build-Once version again r free =
      let f = fresh-base (taken r) [] all_metrics free all_fresh in
      let (s, e, t) = build-Registers version r (rw (append-nil (taken r)) at f) in
      (s, e, t, build-again again (taken r) (drop 1 (all_names all_metrics)) s t)
