-- ===== src/Service/Stamps.antt =====
-- service.py: the exporter's own metrics after a poll.
use teamspeak_prometheus.Base.{◌≡◌, Text, List}
use teamspeak_prometheus.Config.{Config}
use teamspeak_prometheus.Metrics.{IsLawful}
use teamspeak_prometheus.Service.State.{Host, PollResult, State}
use teamspeak_prometheus.Service.Polling.{Times, success_value}

module _ (H : Host) (L : IsLawful (H.prometheus)) (config : Config (H.floats.Float))
    (secrets : List Text) where
  open H use {floats, prometheus, client}
  open prometheus use {value}

  -- the time of the last success after a poll with this result
  abbrev pub last_success_after : PollResult → Times floats.Float → State H → floats.Float
  last_success_after PollResult.ok times s = times.started
  last_success_after PollResult.partial times s = value s.exporter.last_successful_poll_timestamp
  last_success_after PollResult.failed times s = value s.exporter.last_successful_poll_timestamp

  -- the exporter's own values, as a poll with this result has to leave them
  pub record Stamped (times : Times floats.Float) (s : State H) (result : PollResult) (t : State H)
      : Type 0 where
    pub success :
        value t.exporter.poll_success ≡ floats.of_ℕ (success_value H config secrets result)
    pub started : value t.exporter.last_poll_timestamp ≡ times.started
    pub duration :
        value t.exporter.poll_duration
        ≡ floats.subtract times.ended_monotonic times.started_monotonic
    pub last_success :
        value t.exporter.last_successful_poll_timestamp ≡ last_success_after result times s
