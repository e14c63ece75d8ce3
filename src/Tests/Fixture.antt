-- ===== src/Tests/Fixture.antt =====
-- Whole numbers as floats, gauges as dicts, and a ServerQuery client that answers from a script.
use teamspeak_prometheus.Base.{
  ℕ, suc, ◌+◌, ◌-◌, ◌≡◌, refl, Text, codes, ◌==◌, leb, if◌then◌else◌, Option, none, some, List, [],
  ◌∷◌, ◌++◌, same, arith, list_eq, nat_eq,
}
use teamspeak_prometheus.Base.Dict
use teamspeak_prometheus.Base.Dict.{Dict, get-put, get-remove}
use teamspeak_prometheus.Exec.{Exec, ok, err, OsError, os_error}
use teamspeak_prometheus.Characters.{ℤ, pos, negsuc, ascii, parse_int}
use teamspeak_prometheus.Metrics.{Floats, Prometheus, IsLawful}
use teamspeak_prometheus.Config.{Config}
use teamspeak_prometheus.Service.State.{ServerRecord, Ts3Client, Host, ExporterMetrics}
use teamspeak_prometheus.Service.Polling.{Times}

abbrev natural : Option ℤ → Option ℕ
natural none = none
natural (some (pos n)) = some n
natural (some (negsuc n)) = none

abbrev pub whole_numbers : Floats
whole_numbers = record {
  Float = ℕ;
  parse = λ text. natural (parse_int ascii text);
  of_ℕ = λ n. n;
  subtract = λ a b. a - b;
  at_most = leb;
  equal = λ a b. a == b;
}

abbrev pub removed : Dict Text ℕ → Text → Option (Dict Text ℕ)
removed g l = elim (Dict.get g l) [ none ↦ none | some v ↦ some (Dict.remove g l) ]

unfoldable pub count : List Text → Text → ℕ
count [] k = 0
count (l ∷ c) k = let n = count c k in if same k l then suc n else n

abbrev pub memory : Prometheus ℕ
memory = record {
  Gauge = Dict Text ℕ;
  new = [];
  set = λ g l v. Dict.put g l v;
  remove = removed;
  series = λ g l. Dict.get g l;
  Single = ℕ;
  put = λ _ v. v;
  value = λ v. v;
  Counter = List Text;
  inc = λ c l. l ∷ c;
  count = count;
}

same_sym : (l k : Text) → same l k ≡ same k l
same_sym l k = ground arith

pub memory-IsLawful : IsLawful memory
memory-IsLawful = record {
  series-new = λ l. unfold Dict.get in refl;
  series-set = λ g l k v. rw (get-put, same_sym) refl;
  remove-none = λ g l h. ground (arith, h);
  remove-some = λ g h l k e. ground (arith, e, get-remove g l k, same_sym k l);
  value-put = λ g v. refl;
  count-inc = λ c l k. unfold count in refl;
}

-- The client logs its calls, and answers `serverinfo` from a list.
abbrev pub Script : Type 0
Script = List Text × List ServerRecord

abbrev say : {A : Type 0} → Text → A → Exec Script A
say call a (calls, answers) = (ok a, (calls ++ call ∷ [], answers))

abbrev pub server : Text → Text → ServerRecord
server id name = (codes "virtualserver_id", some id) ∷ (codes "virtualserver_name", some name) ∷ []

abbrev answer : Exec Script ServerRecord
answer (calls, []) = (err (os_error OsError.timeout (codes "timed out")), (calls, []))
answer (calls, info ∷ answers) = (ok info, (calls ++ codes "serverinfo" ∷ [], answers))

abbrev client : Ts3Client Script
client = record {
  connect = λ host port. say (codes "connect") tt;
  login = λ user password. say (codes "login") tt;
  serverlist =
      say (codes "serverlist")
        (server (codes "1") (codes "a") ∷ server (codes "2") (codes "b") ∷ []);
  use_server = λ id. say (codes "use") tt;
  serverinfo = answer;
  close = say (codes "quit") tt;
}

abbrev pub host : Host
host = record {
  floats = whole_numbers;
  prometheus = memory;
  World = Script;
  client = client;
  is_printable = ascii.is_printable;
}

abbrev pub config : Config ℕ
config = record {
  host = codes "h";
  port = 10011;
  username = codes "u";
  password = codes "pass";
  metrics_port = 8000;
  poll_interval = 5;
  log_level = codes "INFO";
}

abbrev pub exporter : ExporterMetrics host
exporter = record {
  last_poll_timestamp = 0;
  last_successful_poll_timestamp = 0;
  poll_success = 0;
  poll_duration = 0;
  poll_errors = [];
  missing_fields = [];
}

abbrev pub times : ℕ → Times ℕ
times t = record { started = t; started_monotonic = t; ended_monotonic = t + 2 }

abbrev pub uptime : Text
uptime = codes "virtualserver_uptime"

-- what the server sends of a virtualserver that is called after the password
abbrev pub info : ServerRecord
info = (codes "virtualserver_name", some (codes "pass 1")) ∷ (uptime, some (codes "7")) ∷ []
