-- ===== src/Main/Censored.antt =====
-- main.py: the loggers that `main` writes through.
use teamspeak_prometheus.Base.{◌≡◌, List, [], ◌∷◌, ◌++◌, Text}
use teamspeak_prometheus.Redaction.{every_form}
use teamspeak_prometheus.Characters.{Characters}
use teamspeak_prometheus.Metrics.{Floats}
use teamspeak_prometheus.Config.{Config}
use teamspeak_prometheus.Logs.{Logger, redacting, without_redacting}
use teamspeak_prometheus.Main.{Event, logged, handles_termination, polls, Process}

-- The one filter that censors has these secrets.
abbrev Ready : Logger → Logger → List Text → Type 0
Ready start logger secrets =
    logger.filters ≡ without_redacting start.filters ++ redacting (every_form secrets) ∷ []

module _ (F : Floats) (C : Characters) (P : Process F C) where
  -- A line is logged through one `RedactingFilter`, which has every form of these secrets, and the
  -- filters of other classes; the service is given the same secrets.
  abbrev pub Censors : Logger → List Text → Event F.Float → Type 0
  Censors start secrets (logged logger message) =
      logger.filters ≡ without_redacting start.filters ++ redacting (every_form secrets) ∷ []
  Censors start secrets handles_termination = Unit
  Censors start secrets (polls config given) = given ≡ secrets
