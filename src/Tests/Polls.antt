-- ===== src/Tests/Polls.antt =====
-- The service at a script of two virtualservers.
use teamspeak_prometheus.Base.{
  ℕ, ◌≡◌, refl, Text, codes, true, contains, List, [], ◌∷◌, ◌++◌, some, list_eq, nat_eq, pair_eq,
}
use teamspeak_prometheus.Base.Dict
use teamspeak_prometheus.Base.Dict.{Dict}
use teamspeak_prometheus.Characters.{parse_int}
use teamspeak_prometheus.Exec.{ok}
use teamspeak_prometheus.Redaction.{secrets_for_redaction, redact}
use teamspeak_prometheus.Metrics.Staging.{stage}
use teamspeak_prometheus.Metrics.{
  build_gauges, update_gauges, metrics_names, label_value, contract_values,
}
use teamspeak_prometheus.Service.State.{PollResult, Session, State}
use teamspeak_prometheus.Service.Recording.{
  apply_session, record_all, record_reading, retire, forget, without, report_duplicates,
  report_status_changes, warn_missing, warn_one,
}
use teamspeak_prometheus.Service.Polling.{
  fetch, closing, log_in_and_read, poll_once, poll, stamp_start, stamp_end,
}
use teamspeak_prometheus.Service.Reading.{read_session}
use teamspeak_prometheus.Service.Recorded.{shows}
use teamspeak_prometheus.Service.Outcome.{fetched, Unchanged, poll-failed, poll-shows, IsService}
use teamspeak_prometheus.Service.Counts.{Counts, poll-Counts}
use teamspeak_prometheus.Service.Protocol.{
  Event, connects, logs_in, lists, selects, asks, closes, done, broken, down, over, Run, recorded,
}
use teamspeak_prometheus.Service.Traced.{calls}
use teamspeak_prometheus.Service.Follows.{poll-Follows}
use teamspeak_prometheus.Service.Running.{
  new_service, new_service-IsService, after_polls, after_polls-shows,
}
use teamspeak_prometheus.Tests.Fixture.{
  host, config, exporter, times, uptime, info, server, memory-IsLawful,
}

-- a script with an answer for both virtualservers, and one that ends before the second
abbrev full : State host
full = new_service host ([], info ∷ info ∷ []) exporter

abbrev short : State host
short = new_service host ([], info ∷ []) exporter

full-IsService : IsService host memory-IsLawful config [] full
full-IsService =
    new_service-IsService host memory-IsLawful config [] ([], info ∷ info ∷ []) exporter

short-IsService : IsService host memory-IsLawful config [] short
short-IsService = new_service-IsService host memory-IsLawful config [] ([], info ∷ []) exporter

abbrev label : Text
label = codes "*censored* 1"

abbrev session : Session ℕ
session = record {
  servers = server (codes "1") (codes "a") ∷ server (codes "2") (codes "b") ∷ [];
  result = PollResult.ok;
  readings = (label, (uptime, 7) ∷ []) ∷ (label, (uptime, 7) ∷ []) ∷ [];
  owners = (label, codes "1" ∷ codes "2" ∷ []) ∷ [];
  not_online = [];
}

full-session : (fetched host memory-IsLawful config [] (times 3) full).0 ≡ ok session
unfolding fetch closing log_in_and_read stamp_start new_service read_session redact
    secrets_for_redaction label_value contract_values parse_int Dict.get Dict.put list_eq nat_eq
full-session = refl

short_failed : (poll host config [] (times 3) short).0 ≡ PollResult.failed
unfolding poll poll_once fetch closing log_in_and_read stamp_start new_service read_session redact
    secrets_for_redaction label_value contract_values parse_int Dict.get Dict.put list_eq nat_eq
short_failed = refl

uptime-metric : contains metrics_names uptime ≡ true
unfolding list_eq nat_eq
uptime-metric = refl

poll-failed_example :
    Unchanged host memory-IsLawful config [] short (poll host config [] (times 3) short).1
poll-failed_example =
    poll-failed host memory-IsLawful config [] (times 3) short short-IsService.has_all short_failed

poll-shows_example :
    ((poll host config [] (times 3) full).0 ≡ PollResult.ok)
    × (shows host (poll host config [] (times 3) full).1 uptime label ≡ some 7)
unfolding Dict.get list_eq nat_eq
poll-shows_example =
    poll-shows host memory-IsLawful config [] (times 3) full session full-IsService.has_all
      full-IsService.tracked full-session uptime label uptime-metric

poll-Counts_example :
    Counts host memory-IsLawful config [] short
      (poll host config [] (times 3) short).0
      (poll host config [] (times 3) short).1
poll-Counts_example =
    poll-Counts host memory-IsLawful config [] (times 3) short short-IsService.has_all

-- the service that is cut short, with a record of its calls
abbrev on_record : State (recorded host)
on_record =
    new_service (recorded host) (([], info ∷ []), [])
      (record {
        last_poll_timestamp = 0;
        last_successful_poll_timestamp = 0;
        poll_success = 0;
        poll_duration = 0;
        poll_errors = [];
        missing_fields = [];
      })

on_record-IsService : IsService (recorded host) memory-IsLawful config [] on_record
unfolding new_service
on_record-IsService =
    new_service-IsService (recorded host) memory-IsLawful config [] (([], info ∷ []), [])
      (on_record.exporter)

poll-Follows_example :
    (events : List Event) × (Run down events over)
    × (calls host (poll (recorded host) config [] (times 3) on_record).1 ≡ [] ++ events)
unfolding new_service
poll-Follows_example =
    poll-Follows host config [] memory-IsLawful (times 3) on_record on_record-IsService.has_all

on_record_test :
    calls host (fetch (recorded host) config [] on_record).1
    ≡ connects done
      ∷ logs_in done
      ∷ lists done
      ∷ selects done
      ∷ asks done
      ∷ selects done
      ∷ asks broken
      ∷ closes done
      ∷ []
unfolding fetch closing log_in_and_read new_service read_session redact secrets_for_redaction
    label_value contract_values parse_int Dict.get Dict.put list_eq nat_eq
on_record_test = refl

abbrev starting : Dict Text Text
starting = (codes "2", codes "booting up") ∷ []

-- the service after one poll, with answers left for another
abbrev again : State host
again =
    after_polls host memory-IsLawful config [] (times 3 ∷ [])
      (new_service host ([], info ∷ info ∷ info ∷ info ∷ []) exporter)

again-session : (fetched host memory-IsLawful config [] (times 9) again).0 ≡ ok session
unfolding after_polls poll poll_once apply_session fetch closing log_in_and_read stamp_start
    stamp_end new_service read_session redact secrets_for_redaction label_value contract_values
    parse_int Dict.get Dict.put list_eq nat_eq record_all record_reading update_gauges build_gauges
    stage warn_missing warn_one pair_eq retire forget without report_status_changes
    report_duplicates
again-session = refl

after_polls-shows_example : shows host (poll host config [] (times 9) again).1 uptime label ≡ some 7
unfolding Dict.get list_eq nat_eq
after_polls-shows_example =
    after_polls-shows host memory-IsLawful config [] ([], info ∷ info ∷ info ∷ info ∷ []) exporter
      (times 3 ∷ []) (times 9) session again-session uptime label uptime-metric
