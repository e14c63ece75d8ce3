-- ===== src/Service/State.antt =====
-- service.py: the state of `Teamspeak3MetricService`, a session, and what the service is given: the
-- client of `Ts3Client`, the metrics library, the floats and the character database.
use teamspeak_prometheus.Base.{ℕ, Text, Bool, Option, List, []}
use teamspeak_prometheus.Base.Dict.{Dict}
use teamspeak_prometheus.Exec.{Exec}
use teamspeak_prometheus.Metrics.{Floats, Prometheus}

-- One record of a response.
abbrev pub ServerRecord : Type 0
ServerRecord = Dict Text (Option Text)

-- `Ts3Client`, and `client_factory` as `connect`. `World` is whatever the calls change.
pub record Ts3Client (World : Type 0) : Type 0 where
  pub connect : Text → ℕ → Exec World (Unit {0})
  pub login : Text → Text → Exec World (Unit {0})
  pub serverlist : Exec World (List ServerRecord)
  pub use_server : Option Text → Exec World (Unit {0})
  pub serverinfo : Exec World ServerRecord
  pub close : Exec World (Unit {0})

pub record Host : Type 1 where
  pub floats : Floats
  pub prometheus : Prometheus (floats.Float)
  pub World : Type 0
  pub client : Ts3Client World
  pub is_printable : ℕ → Bool

pub data PollResult : Type 0 where
  ok partial failed : PollResult

-- The log calls of the service, with the arguments that vary.
pub data LogLine : Type 0 where
  poll_failed : Text → LogLine
  skipping : Option Text → LogLine
  duplicate_name : Text → List Text → LogLine
  status_changed : Text → Option Text → Text → LogLine
  online_again : Text → Option Text → LogLine
  field_missing : Text → Text → LogLine
  series_removed : Text → LogLine

-- `_Session`
pub record Session (Float : Type 0) : Type 0 where
  pub servers : List ServerRecord
  pub result : PollResult
  pub readings : List (Text × Dict Text Float)
  pub owners : Dict Text (List Text)
  pub not_online : Dict Text Text

abbrev pub new_session : {Float : Type 0} → List ServerRecord → Session Float
new_session servers = record {
  servers = servers;
  result = PollResult.ok;
  readings = [];
  owners = [];
  not_online = [];
}

-- The values of the exporter's own metrics that change.
pub record ExporterMetrics (H : Host) : Type 0 where
  pub last_poll_timestamp : H.prometheus.Single
  pub last_successful_poll_timestamp : H.prometheus.Single
  pub poll_success : H.prometheus.Single
  pub poll_duration : H.prometheus.Single
  pub poll_errors : H.prometheus.Counter
  pub missing_fields : H.prometheus.Gauge

pub record State (H : Host) : Type 0 where
  pub world : H.World
  pub gauges : Dict Text H.prometheus.Gauge
  pub exporter : ExporterMetrics H
  pub known_virtualservers : List Text
  pub warned_missing : List (Text × Text)
  pub not_online : Dict Text Text
  pub warned_duplicates : List Text
  pub log : List LogLine
