-- ===== src/Logs.antt =====
-- teamspeak_prometheus/logs.py: the exporter's one logger.
use teamspeak_prometheus.Base.{ℕ, ◌≡◌, refl, List, [], ◌∷◌, ◌++◌, Text, ap}
use teamspeak_prometheus.Redaction.{every_form}

-- a `RedactingFilter` with its secrets, or a filter of another class
pub data LogFilter : Type 0 where
  redacting : List Text → LogFilter
  another : ℕ → LogFilter

pub record Logger : Type 0 where
  pub level : Text
  pub filters : List LogFilter

-- the removal of every `RedactingFilter`
unfoldable pub without_redacting : List LogFilter → List LogFilter
without_redacting [] = []
without_redacting (redacting secrets ∷ filters) = without_redacting filters
without_redacting (another n ∷ filters) = another n ∷ without_redacting filters

-- `configure_logging`, where `RedactingFilter.__init__` keeps every form of the secrets
unfoldable pub configure_logging : Text → List Text → Logger → Logger
unfolding without_redacting
configure_logging level secrets logger = record {
  level = level;
  filters = without_redacting logger.filters ++ redacting (every_form secrets) ∷ [];
}

pub without_redacting-append :
    (filters : List LogFilter) (secrets : List Text)
    → without_redacting (without_redacting filters ++ redacting secrets ∷ [])
      ≡ without_redacting filters
unfolding without_redacting
without_redacting-append [] secrets = refl
without_redacting-append (redacting s ∷ filters) secrets = without_redacting-append filters secrets
without_redacting-append (another n ∷ filters) secrets =
    ap (λ l. another n ∷ l) (without_redacting-append filters secrets)
