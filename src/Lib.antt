-- ===== src/Lib.antt =====
-- teamspeak-prometheus: a Prometheus exporter that polls a TeamSpeak 3 server over ServerQuery.
--
-- One poll opens a ServerQuery session, reads every online virtualserver, closes the session, and only
-- then writes what was read into gauges. A loop polls start to start and backs off while polls fail.
-- Names and messages that the server sends are censored before they become labels or log lines.
--
-- Parts, and the files that model them:
--   * teamspeak_prometheus/wire.py: Wire. Texts are lists of code points (Base/Strings), records are
--     dicts in insertion order (Base/Dict). `escape`, `unescape` and `decode_record` keep their names;
--     `_ESCAPES` is `escapes`.
--   * teamspeak_prometheus/redaction.py: Redaction and Redaction/Filter. `redact` is an Option: `none`
--     is the StopIteration of `_marker_avoiding`, whose search is bounded by the number of points from
--     U+2580 to `sys.maxunicode`. The set of `secrets_for_redaction` is taken in the order of the list;
--     Redaction/Order has the set itself, as a quotient of the lists.
--   * teamspeak_prometheus/metrics.py: Metrics. The loops over `METRICS_NAMES` are recursions over the
--     names left. Metrics/Registry has what `build_gauges` and `build_exporter_metrics` register.
--   * teamspeak_prometheus/config.py: Config. A parser returns a value or the ExporterError that it
--     raises; `int` and `upper` stand in Characters.
--   * teamspeak_prometheus/cli.py: Cli. `printed` is what `print_help`, `print_usage` and `exit` of
--     `SafeArgumentParser` print of a text; a namespace has the values and the `<dest>_given` lists.
--     Cli/Parser has the parser itself, with `exit` and `error`.
--     Cli/Masking has `_mask_values`, whose regular expression is a search for a whole fragment.
--     Cli/Argparse has how `argparse` of the standard library reads the tokens (`_parse_optional` and
--     the loop of `parse_known_args`), for options that take one value and no positional arguments.
--   * teamspeak_prometheus/service.py: Service. Service/State has `Teamspeak3MetricService` and
--     `_Session` as records, Service/Reading has `_read`, Service/Recording has `_apply` and what it
--     calls, Service/Polling has `_poll` and `poll`. Service/Running has `__init__` and polls in a row.
--     Service/Protocol has the calls of a session as a state machine, and a client that records them.
--   * teamspeak_prometheus/loop.py: Loop and Loop/Rounds. The clock readings and the result of a poll
--     are the input of a round; `time.monotonic` never goes back, so `ended - started` is a subtraction
--     of natural numbers. The search for the number of doublings is bounded by the cap, which is enough
--     since the interval is positive.
--   * teamspeak_prometheus/serverquery.py: ServerQuery has `ServerQueryClient` and `_read_line`,
--     ServerQuery/Commands has `_send`, `_read_response` and `command`, ServerQuery/Session has `login`,
--     `serverlist`, `use`, `serverinfo` and `close`, and ServerQuery/Connection has `__init__`, `connect`
--     and the client that `default_client_factory` gives the service. ServerQuery/Stream and
--     ServerQuery/Response read bytes that come in chunks, and ServerQuery/Polled puts the service, the
--     client and the socket together. Times are milliseconds. The loops run on
--     fuel: each round of `_read_line` receives a byte, so that two rounds more than
--     `MAX_SESSION_BYTES` are enough, and each line of a response takes bytes from those received or
--     still to come.
--   * teamspeak_prometheus/healthcheck.py: Healthcheck. A listing of /proc is a list of processes with the
--     contents of their files; `main` is given two of them, since it reads /proc twice. A
--     HealthcheckError is an Outcome.
--   * teamspeak_prometheus/main.py: Main. `main` gives the sequence of what it does (Event) and how it
--     ends; each line of the log comes with the logger as it is then.
--   * teamspeak_prometheus/logs.py: Logs, the level and the filters of the logger.
--   * .github/scripts/changelog_section.py: Changelog has the tokens of the parser and `links`,
--     Changelog/Lines the regular expressions and the methods of `str`, Changelog/Section `section` and
--     `without_the_link_block`, Changelog/Notes `broken_links`, `release_notes` and `main`. A `Counter`
--     is a dict of numbers; an Outcome is a value, a NotesError or another exception.
--   * teamspeak_prometheus/errors.py: Exec, the actions that change a state and may raise.
--   * Base: what the modules share: tests on numbers, equality as an instance, lists, texts, dicts.
--   * Tests: runs on concrete data.
--
-- Parameters, for code that the repository does not hold: floats (Metrics.Floats), the gauges and
-- counters of `prometheus_client` (Metrics.Prometheus, with its documented behaviour as IsLawful) and
-- its registry (Metrics.Registry.Registries, with IsRegistry),
-- the character database (Characters.Characters), what `logging` does to a record
-- (Redaction.Filter.Logging), the socket with its clock and `sleep` (ServerQuery.Socket), the
-- decoding of UTF-8 with replacement characters, how argparse takes the tokens of a command line
-- apart (`read_flags`: the flags in their order, or an exit; Cli/Argparse fills it, but for what looks
-- like a negative number), the request of a URL, binding the port and the end of the polling (Main.Process), the markdown-it parser
-- (Changelog.Section.Markdown), and, for the service, the ServerQuery client
-- (Service.State.Ts3Client), any of whose calls may raise anything and change its own world in any
-- way; ServerQuery/Connection fills it. The clock readings of a poll are arguments (Times).
--
-- Times of the loop are whole numbers of some unit instead of floats, for which doubling is exact.
-- Sets are lists in the order of insertion, so that log lines have an order.
--
-- Not modelled: the texts that argparse prints, the registration of the signal handler, the help texts
-- of the metrics, the format of the log, and an interruption of the exporter before it polls.
pub mod Base
pub mod Exec
pub mod Wire
pub mod Redaction
pub mod Characters
pub mod Metrics
pub mod Config
pub mod Cli
pub mod Service
pub mod Loop
pub mod ServerQuery
pub mod Logs
pub mod Main
pub mod Healthcheck
pub mod Changelog
pub mod Tests
