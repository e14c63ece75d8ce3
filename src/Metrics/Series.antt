-- ===== src/Metrics/Series.antt =====
-- metrics.py: what `update_gauges` leaves in every series.
use teamspeak_prometheus.Base.{
  ◌≡◌, refl, ◌≢◌, ap, Text, ◌&&◌, Option, none, some, List, [], ◌∷◌, ◌++◌, append-nil, append_assoc,
  if◌then◌else◌, same, contains, list_eq, nat_eq, arith, All, Option-cases, inl, inr,
}
use teamspeak_prometheus.Base.Dict
use teamspeak_prometheus.Base.Dict.{Dict, get-put}
use teamspeak_prometheus.Exec.{ok}
use teamspeak_prometheus.Metrics.{
  Floats, Prometheus, IsLawful, Field, metrics_names, numeric, remove_series, build_gauges,
  update_loop, update_gauges,
}

module _ (F : Floats) (P : Prometheus F.Float) where
  open F use {Float}
  open P use {Gauge, new, set, remove, series}

  abbrev pub series_of : Option Gauge → Text → Option Float
  series_of none label = none
  series_of (some g) label = series g label

  -- what a scrape shows of one metric for one label
  unfoldable pub reading : Dict Text Gauge → Text → Text → Option Float
  reading gauges name label = series_of (Dict.get gauges name) label

  -- every one of the names has its gauge
  abbrev pub HasGauges : List Text → Dict Text Gauge → Type 0
  HasGauges names gauges = All (λ name. Dict.get gauges name ≢ none) names

  HasGauges-put :
      (names : List Text) (gauges : Dict Text Gauge) (name : Text) (g : Gauge)
      → HasGauges names gauges
      → HasGauges names (Dict.put gauges name g)
  HasGauges-put [] gauges name g h = tt
  HasGauges-put (n ∷ names) gauges name g (p, h) =
      (rw get-put (ground arith), HasGauges-put names gauges name g h)

  -- the contract fields that a response has no number for, in order
  unfoldable pub unread : Dict Text (Field Float) → List Text → List Text
  unread serverinfo [] = []
  unread serverinfo (name ∷ names) = elim (numeric F serverinfo name) [
    | none ↦ name ∷ unread serverinfo names
    | some v ↦ unread serverinfo names
  ]

  module _ (L : IsLawful P) where
    pub series-remove_series :
        (g : Gauge) (l k : Text)
        → series (remove_series F P g l) k ≡ (if same k l then none else series g k)
    unfolding remove_series
    series-remove_series g l k = elim (Option-cases (remove g l)) [
      | inl e ↦ rw (e, remove_series) (ground (arith, L.remove-none g l e, ap (series g)))
      | inr (h, e) ↦ rw (e, remove_series) (L.remove-some g h l k e)
    ]

  -- one round writes one series of one metric
  reading-put :
      (gauges : Dict Text Gauge) (name n : Text) (g h : Gauge) (label l : Text) (v : Option Float)
      → Dict.get gauges name ≡ some g
      → series h l ≡ (if same l label then v else series g l)
      → reading (Dict.put gauges name h) n l
        ≡ (if same n name && same l label then v else reading gauges n l)
  unfolding reading
  reading-put gauges name n g h label l v found written =
      ground (arith, get-put gauges name n h, found, written, ap (Dict.get gauges))

  module _ (L : IsLawful P) (label : Text) (serverinfo : Dict Text (Field Float)) where
    -- what the loop does to the gauge that it finds
    written_gauge : Gauge → Option Float → Gauge
    written_gauge g none = remove_series F P g label
    written_gauge g (some v) = set g label v

    series-written_gauge :
        (g : Gauge) (o : Option Float) (l : Text)
        → series (written_gauge g o) l ≡ (if same l label then o else series g l)
    unfolding written_gauge
    series-written_gauge g none l = ground (arith, series-remove_series L g label l)
    series-written_gauge g (some v) l = ground (arith, L.series-set g label l v)

    skip : Text → List Text → Option Float → List Text
    skip name skipped none = skipped ++ name ∷ []
    skip name skipped (some v) = skipped

    update_loop-cons :
        (name : Text) (names skipped : List Text) (gauges : Dict Text Gauge) (g : Gauge)
        → Dict.get gauges name ≡ some g
        → update_loop F P label serverinfo (name ∷ names) skipped gauges
          ≡ update_loop F P label serverinfo names
              (skip name skipped (numeric F serverinfo name))
              (Dict.put gauges name (written_gauge g (numeric F serverinfo name)))
    unfolding update_loop skip written_gauge
    update_loop-cons name names skipped gauges g found = ground (arith, found)

    found_of_ne_none : (o : Option Gauge) → o ≢ none → (g : Gauge) × (o ≡ some g)
    found_of_ne_none none h = absurd (h refl)
    found_of_ne_none (some g) h = (g, refl)

    unread-cons :
        (name : Text) (names skipped : List Text)
        → skip name skipped (numeric F serverinfo name) ++ unread serverinfo names
          ≡ skipped ++ unread serverinfo (name ∷ names)
    unfolding skip unread
    unread-cons name names skipped =
        ground (arith, append_assoc skipped (name ∷ []) (unread serverinfo names))

    -- the loop returns, and lists exactly the names without a number
    update_loop-skipped :
        (names skipped : List Text) (gauges : Dict Text Gauge)
        → HasGauges names gauges
        → (update_loop F P label serverinfo names skipped gauges).0
          ≡ ok (skipped ++ unread serverinfo names)
    update_loop-skipped [] skipped gauges h = unfold update_loop unread in rw append-nil
    update_loop-skipped (name ∷ names) skipped gauges (p, h) =
        let value = numeric F serverinfo name in
        let (g, found) = found_of_ne_none (Dict.get gauges name) p in
        let next = Dict.put gauges name (written_gauge g value) in
        let more =
          update_loop-skipped names (skip name skipped value) next
            (HasGauges-put names gauges name (written_gauge g value) h) in
        rw (update_loop-cons name names skipped gauges g found, more)
          (ap ok (unread-cons name names skipped))

    update_loop-reading :
        (names skipped : List Text) (gauges : Dict Text Gauge) (n l : Text)
        → HasGauges names gauges
        → reading (update_loop F P label serverinfo names skipped gauges).1 n l ≡ (
            if contains names n && same l label then numeric F serverinfo n else reading gauges n l)
    update_loop-reading [] skipped gauges n l h = unfold update_loop in refl
    update_loop-reading (name ∷ names) skipped gauges n l (p, h) =
        let value = numeric F serverinfo name in
        let (g, found) = found_of_ne_none (Dict.get gauges name) p in
        let written = written_gauge g value in
        let next = Dict.put gauges name written in
        rw (update_loop-cons name names skipped gauges g found) (
          ground (
            arith,
            update_loop-reading names (skip name skipped value) next n l
                (HasGauges-put names gauges name written h),
            reading-put gauges name n g written label l value found
                (series-written_gauge g value l),
            ap (numeric F serverinfo),
          ))

    update_loop-HasGauges :
        (names skipped : List Text) (gauges : Dict Text Gauge) (all_names : List Text)
        → HasGauges names gauges
        → HasGauges all_names gauges
        → HasGauges all_names (update_loop F P label serverinfo names skipped gauges).1
    update_loop-HasGauges [] skipped gauges all_names h k = unfold update_loop in k
    update_loop-HasGauges (name ∷ names) skipped gauges all_names (p, h) k =
        let value = numeric F serverinfo name in
        let (g, found) = found_of_ne_none (Dict.get gauges name) p in
        let written = written_gauge g value in
        rw (update_loop-cons name names skipped gauges g found) (
          update_loop-HasGauges names (skip name skipped value) (Dict.put gauges name written)
            all_names (HasGauges-put names gauges name written h)
            (HasGauges-put all_names gauges name written k))

-- If there is a gauge for each contract name, `update_gauges` returns the fields without a number, in
-- order, and sets every contract series of the label to the field's number or removes it. No other
-- series changes.
pub update_gauges_lem :
    (F : Floats) (P : Prometheus F.Float) (L : IsLawful P) (gauges : Dict Text P.Gauge)
    (label : Text) (serverinfo : Dict Text (Field F.Float))
    → HasGauges F P metrics_names gauges
    → ((update_gauges F P gauges label serverinfo).0 ≡ ok (unread F P serverinfo metrics_names))
      × ((name l : Text)
          → reading F P (update_gauges F P gauges label serverinfo).1 name l ≡ (
              if contains metrics_names name && same l label
              then numeric F serverinfo name
              else reading F P gauges name l))
unfolding update_gauges
update_gauges_lem F P L gauges label serverinfo h = (
  update_loop-skipped F P L label serverinfo metrics_names [] gauges h,
  λ name l. update_loop-reading F P L label serverinfo metrics_names [] gauges name l h,
)

pub update_gauges-HasGauges :
    (F : Floats) (P : Prometheus F.Float) (L : IsLawful P) (gauges : Dict Text P.Gauge)
    (label : Text) (serverinfo : Dict Text (Field F.Float))
    → HasGauges F P metrics_names gauges
    → HasGauges F P metrics_names (update_gauges F P gauges label serverinfo).1
unfolding update_gauges
update_gauges-HasGauges F P L gauges label serverinfo h =
    update_loop-HasGauges F P L label serverinfo metrics_names [] gauges metrics_names h h

build_gauges-HasGauges_loop :
    (F : Floats) (P : Prometheus F.Float) (names : List Text) (gauges : Dict Text P.Gauge)
    (all_names : List Text)
    → HasGauges F P all_names gauges
    → HasGauges F P all_names (build_gauges F P names gauges)
unfolding build_gauges
build_gauges-HasGauges_loop F P [] gauges all_names h = h
build_gauges-HasGauges_loop F P (name ∷ names) gauges all_names h =
    build_gauges-HasGauges_loop F P names (Dict.put gauges name P.new) all_names
      (HasGauges-put F P all_names gauges name P.new h)

put-ne-none :
    (F : Floats) (P : Prometheus F.Float) (gauges : Dict Text P.Gauge) (name : Text)
    → Dict.get (Dict.put gauges name P.new) name ≢ none
put-ne-none F P gauges name = rw get-put (ground arith)

pub build_gauges-names :
    (F : Floats) (P : Prometheus F.Float) (names : List Text) (gauges : Dict Text P.Gauge)
    → HasGauges F P names (build_gauges F P names gauges)
unfolding build_gauges
build_gauges-names F P [] gauges = tt
build_gauges-names F P (name ∷ names) gauges =
    let next = Dict.put gauges name P.new in
    let kept =
      build_gauges-HasGauges_loop F P names next (name ∷ []) (put-ne-none F P gauges name, tt) in
    (kept.0, build_gauges-names F P names next)
