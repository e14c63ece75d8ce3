-- ===== src/Service/Forgotten.antt =====
-- service.py: the series before and after `_forget`, and the last readings of a name.
use teamspeak_prometheus.Base.{
  ◌≡◌, ◌≢◌, refl, ap, Text, Bool, true, false, not, ◌&&◌, ◌||◌, Option, none, List, [], ◌∷◌,
  if◌then◌else◌, same, contains, contains-append, list_eq, nat_eq, pair_eq, arith, inl, inr,
  Bool-cases,
}
use teamspeak_prometheus.Base.Dict
use teamspeak_prometheus.Base.Dict.{Dict}
use teamspeak_prometheus.Metrics.{IsLawful, metrics_names}
use teamspeak_prometheus.Metrics.Series.{HasGauges, reading, series-remove_series}
use teamspeak_prometheus.Service.State.{Host, State}
use teamspeak_prometheus.Service.Recording.{
  add_name, without, remove_everywhere, forget_one, forget,
}
use teamspeak_prometheus.Service.Recorded.{latest, names_read, HasAll, shows}

unfoldable pub is_read : {V : Type 0} → List (Text × Dict Text V) → Text → Bool
is_read [] l = false
is_read ((name, values) ∷ readings) l = same l name || is_read readings l

contains-add_name :
    (seen : List Text) (name l : Text)
    → contains (add_name seen name) l ≡ (contains seen l || same l name)
unfolding add_name
contains-add_name seen name l = elim (Bool-cases (contains seen name)) [
  | inl e ↦ rw e (ground (arith, e, ap (contains seen)))
  | inr e ↦ rw e (ground (arith, contains-append seen (name ∷ []) l))
]

pub contains-names_read :
    {V : Type 0} (readings : List (Text × Dict Text V)) (seen : List Text) (l : Text)
    → contains (names_read readings seen) l ≡ (contains seen l || is_read readings l)
unfolding is_read
contains-names_read [] seen l = ground arith
contains-names_read ((name, values) ∷ readings) seen l =
    ground
      (arith, contains-names_read readings (add_name seen name) l, contains-add_name seen name l)

pub latest_read :
    {V : Type 0} (readings : List (Text × Dict Text V)) (n l : Text) (old new : Option V)
    → is_read readings l ≡ true
    → latest readings n l old ≡ latest readings n l new
unfolding is_read
latest_read [] n l old new h = cc
latest_read ((name, values) ∷ readings) n l old new h = elim (list_eq.dec l name) [
  | yes e ↦ ground (arith, e)
  | no ne ↦ ground (arith, ne, latest_read readings n l old new)
]

pub latest_not_read :
    {V : Type 0} (readings : List (Text × Dict Text V)) (n l : Text) (old : Option V)
    → is_read readings l ≡ false
    → latest readings n l old ≡ old
unfolding is_read
latest_not_read [] n l old h = refl
latest_not_read ((name, values) ∷ readings) n l old h =
    ground (arith, latest_not_read readings n l old)

pub contains-without :
    (names seen : List Text) (l : Text)
    → contains (without names seen) l ≡ (contains names l && not (contains seen l))
unfolding without
contains-without [] seen l = refl
contains-without (name ∷ names) seen l =
    ground (arith, contains-without names seen l, ap (contains seen))

module _ (H : Host) (L : IsLawful (H.prometheus)) where
  open H use {floats, prometheus}

  reading-remove_everywhere :
      (gauges : Dict Text prometheus.Gauge) (name n l : Text)
      → reading floats prometheus (remove_everywhere H gauges name) n l
        ≡ (if same l name then none else reading floats prometheus gauges n l)
  unfolding remove_everywhere reading Dict.get
  reading-remove_everywhere [] name n l = ground arith
  reading-remove_everywhere ((metric, gauge) ∷ gauges) name n l = ground (
    arith,
    reading-remove_everywhere gauges name n l,
    series-remove_series floats prometheus L gauge name l,
  )

  get-remove_everywhere :
      (gauges : Dict Text prometheus.Gauge) (name n : Text)
      → Dict.get gauges n ≢ none
      → Dict.get (remove_everywhere H gauges name) n ≢ none
  unfolding remove_everywhere Dict.get
  get-remove_everywhere [] name n h = h
  get-remove_everywhere ((metric, gauge) ∷ gauges) name n h =
      ground (arith, get-remove_everywhere gauges name n)

  HasGauges-remove_everywhere :
      (names : List Text) (gauges : Dict Text prometheus.Gauge) (name : Text)
      → HasGauges floats prometheus names gauges
      → HasGauges floats prometheus names (remove_everywhere H gauges name)
  HasGauges-remove_everywhere [] gauges name h = tt
  HasGauges-remove_everywhere (n ∷ names) gauges name (p, h) =
      (get-remove_everywhere gauges name n p, HasGauges-remove_everywhere names gauges name h)

  -- the state after some names were forgotten
  pub record Forgotten (s : State H) (names : List Text) (t : State H) : Type 0 where
    pub has_all : HasAll H s → HasAll H t
    pub last_poll : t.exporter.last_poll_timestamp ≡ s.exporter.last_poll_timestamp
    pub errors : t.exporter.poll_errors ≡ s.exporter.poll_errors
    pub world : t.world ≡ s.world
    pub last_success :
        t.exporter.last_successful_poll_timestamp ≡ s.exporter.last_successful_poll_timestamp
    pub written : (n l : Text) → shows H t n l ≡ (if contains names l then none else shows H s n l)

  pub forget_lem : (names : List Text) (s : State H) → Forgotten s names (forget H names s)
  unfolding forget forget_one
  forget_lem [] s = record {
    has_all = λ h. h;
    last_poll = refl;
    errors = refl;
    world = refl;
    last_success = refl;
    written = λ n l. refl;
  }
  forget_lem (name ∷ names) s =
      let more = forget_lem names (forget_one H name s) in
      record {
        has_all = λ h. more.has_all (HasGauges-remove_everywhere metrics_names s.gauges name h);
        last_poll = more.last_poll;
        errors = more.errors;
        world = more.world;
        last_success = more.last_success;
        written =
            λ n l. ground (arith, more.written n l, reading-remove_everywhere s.gauges name n l);
      }
