-- ===== src/Service/Polling.antt =====
-- service.py: `_poll` and `poll`. The readings of the two clocks are arguments.
use teamspeak_prometheus.Base.{ℕ, Text, codes, List, [], ◌∷◌, ◌++◌}
use teamspeak_prometheus.Exec.{
  Exec, Result, ok, err, Exception, login_failed, server_query_error, os_error, unexpected, pure,
  ◌>>=◌, ◌>>◌,
}
use teamspeak_prometheus.Redaction.{secrets_for_redaction}
use teamspeak_prometheus.Config.{Config}
use teamspeak_prometheus.Service.State.{Host, PollResult, poll_failed, Session, State}
use teamspeak_prometheus.Service.Reading.{on_client, read_session}
use teamspeak_prometheus.Service.Recording.{apply_session}

-- The readings of a poll: `clock()` at its start, `monotonic()` at its start and at its end.
pub record Times (Float : Type 0) : Type 0 where
  pub started : Float
  pub started_monotonic : Float
  pub ended_monotonic : Float

-- the label of `poll_errors` for an exception that leaves `_poll`
unfoldable pub reason : Exception → Text
reason (login_failed m) = codes "login"
reason (server_query_error m) = codes "query"
reason (os_error k m) = codes "connection"
reason unexpected = codes "unexpected"

module _ (H : Host) (config : Config (H.floats.Float)) (secrets : List Text) where
  open H use {floats, prometheus, client}

  -- `self._secrets`, with every password given
  abbrev pub all_secrets : List Text
  all_secrets = secrets_for_redaction (config.password ∷ secrets)

  -- the body of `try` in `_poll`
  unfoldable pub log_in_and_read : Exec (State H) (Session floats.Float)
  log_in_and_read = do
    on_client H all_secrets (client.login config.username config.password)
    read_session H all_secrets

  -- `finally: client.close()`: an exception of `close` replaces the body's
  abbrev pub closed_with :
      {A : Type 0} → Result (Unit {0}) × State H → Result A → Result A × State H
  closed_with (ok _, s) r = (r, s)
  closed_with (err e, s) r = (err e, s)

  unfoldable pub closing : {A : Type 0} → Exec (State H) A → Exec (State H) A
  closing body s = let (r, t) = body s in closed_with (on_client H all_secrets client.close t) r

  -- `_poll` up to `_apply`
  unfoldable pub fetch : Exec (State H) (Session floats.Float)
  fetch = do
    on_client H all_secrets (client.connect config.host config.port)
    closing log_in_and_read

  -- `_poll`
  unfoldable pub poll_once : Exec (State H) PollResult
  poll_once = do session ← fetch; apply_session H session; pure session.result

  -- `_failed`, and the handler of any other exception
  unfoldable pub record_failure : Text → State H → State H
  record_failure why s = record s {
    log = s.log ++ poll_failed why ∷ [];
    exporter = record (s.exporter) { poll_errors = prometheus.inc s.exporter.poll_errors why };
  }

  -- the handlers of `poll`
  abbrev pub handled : Result PollResult × State H → PollResult × State H
  handled (ok result, s) = (result, s)
  handled (err e, s) = (PollResult.failed, record_failure (reason e) s)

  abbrev pub success_value : PollResult → ℕ
  success_value PollResult.ok = 1
  success_value PollResult.partial = 0
  success_value PollResult.failed = 0

  abbrev pub stamp_success : PollResult → floats.Float → prometheus.Single → prometheus.Single
  stamp_success PollResult.ok started g = prometheus.put g started
  stamp_success PollResult.partial started g = g
  stamp_success PollResult.failed started g = g

  unfoldable pub stamp_start : floats.Float → State H → State H
  stamp_start started s = record s {
    exporter = record (s.exporter) {
      last_poll_timestamp = prometheus.put s.exporter.last_poll_timestamp started;
    };
  }

  -- what `poll` sets at its end
  unfoldable pub stamp_end : Times floats.Float → PollResult → State H → State H
  stamp_end times result s = record s {
    exporter = record (s.exporter) {
      poll_duration =
          prometheus.put s.exporter.poll_duration
            (floats.subtract times.ended_monotonic times.started_monotonic);
      poll_success = prometheus.put s.exporter.poll_success (floats.of_ℕ (success_value result));
      last_successful_poll_timestamp =
          stamp_success result times.started s.exporter.last_successful_poll_timestamp;
    };
  }

  -- `poll`
  unfoldable pub poll : Times floats.Float → State H → PollResult × State H
  poll times s =
      let (result, t) = handled (poll_once (stamp_start times.started s)) in
      (result, stamp_end times result t)
