-- ===== src/Main/Endings.antt =====
-- main.py: how it ends.
use teamspeak_prometheus.Base.{zero, suc, ◌≡◌, ◌≢◌, ◌⊎◌, inl, inr, refl, none, some, List, Text}
use teamspeak_prometheus.Characters.{Characters}
use teamspeak_prometheus.Metrics.{Floats}
use teamspeak_prometheus.Config.{Config, ConfigError, Checked, valid, invalid}
use teamspeak_prometheus.Main.{crashed, Ending, exits, raises, Process}

pub Checked-cases :
    {A : Type 0} (r : Checked A) → ((a : A) × (r ≡ valid a)) ⊎ ((e : ConfigError) × (r ≡ invalid e))
Checked-cases (valid a) = inl (a, refl)
Checked-cases (invalid e) = inr (e, refl)

module _ (F : Floats) (C : Characters) (P : Process F C) where
  -- the port of an accepted configuration could be bound
  abbrev pub Serves : Checked (Config F.Float) → List Text → Config F.Float → Type 0
  Serves r secrets config = (r ≡ valid config) × (P.listen config.metrics_port ≡ none)

  -- why it ends like this, for a configuration or its error, and the secrets
  abbrev pub Reason : Checked (Config F.Float) → List Text → Ending → Type 0
  Reason r secrets (exits zero) =
      (config : Config F.Float) × Serves r secrets config
      × (P.poll_forever config secrets ≢ crashed)
  Reason r secrets (exits (suc zero)) =
      (config : Config F.Float) × (text : Text) × (r ≡ valid config)
      × (P.listen config.metrics_port ≡ some text)
  Reason r secrets (exits (suc (suc zero))) = (e : ConfigError) × (r ≡ invalid e)
  Reason r secrets raises =
      (config : Config F.Float) × Serves r secrets config
      × (P.poll_forever config secrets ≡ crashed)
  Reason r secrets _ = ⊥
