-- ===== src/ServerQuery/Session.antt =====
-- serverquery.py: `login`, `serverlist`, `use`, `serverinfo` and `close`; `none` is a lack of fuel.
use teamspeak_prometheus.Base.{
  ℕ, ◌+◌, ◌*◌, ◌==◌, if◌then◌else◌, Option, none, some, List, [], ◌∷◌, Text, codes, min,
}
use teamspeak_prometheus.Exec.{
  Exec, Exception, Result, ok, err, login_failed, server_query_error, os_error, unexpected,
}
use teamspeak_prometheus.Characters.{ℤ, pos, negsuc, Characters}
use teamspeak_prometheus.Service.State.{ServerRecord}
use teamspeak_prometheus.Service.Reading.{str, offline}
use teamspeak_prometheus.ServerQuery.{Socket, Client}
use teamspeak_prometheus.ServerQuery.Commands.{
  Answer, records, rejected, failure_text, raised, send, on_socket, run_command,
}

-- `PER_VIRTUALSERVER_TIMEOUT_IN_SECONDS`
abbrev pub per_virtualserver_timeout : ℕ
per_virtualserver_timeout = 5000

abbrev pub max_session_timeout : ℕ
max_session_timeout = 900000

-- the exception of `login` for a rejection
unfoldable pub login_error : ℤ → Text → Exception
login_error (pos n) message =
    if n == 520
    then login_failed (failure_text (codes "login") (pos n) message)
    else server_query_error (failure_text (codes "login") (pos n) message)
login_error (negsuc n) message =
    server_query_error (failure_text (codes "login") (negsuc n) message)

abbrev pub of_login : Answer → Result (Unit {0})
of_login (records rs) = ok tt
of_login (rejected id message) = err (login_error id message)

-- the records that `serverlist` counts
unfoldable pub count_online : List ServerRecord → ℕ
unfolding offline
count_online [] = 0
count_online (server ∷ servers) =
    let rest = count_online servers in elim (offline server) [ none ↦ 1 + rest | some _ ↦ rest ]

abbrev pub first_record : List ServerRecord → ServerRecord
first_record [] = []
first_record (r ∷ rs) = r

abbrev pub map_result : {A B : Type 0} → (A → B) → Result A → Result B
map_result f (ok a) = ok (f a)
map_result f (err e) = err e

module _ {W : Type 0} (S : Socket W) (C : Characters) (decode : List ℕ → Text) where
  -- the records of a command, or what it raises
  abbrev pub of_command : Text → Result Answer → Result (List ServerRecord)
  of_command command (ok answer) = raised command answer
  of_command command (err e) = err e

  unfoldable pub command :
      Text → List (Text × Text) → Client W → Option (Result (List ServerRecord) × Client W)
  unfolding run_command
  command name params c = elim (run_command S C decode name params c) [
    | none ↦ none
    | some (r, d) ↦ some (of_command name r, d)
  ]

  abbrev pub answer_of_login : Result Answer → Result (Unit {0})
  answer_of_login (ok answer) = of_login answer
  answer_of_login (err e) = err e

  unfoldable pub login : Text → Text → Client W → Option (Result (Unit {0}) × Client W)
  unfolding run_command login_error
  login username password c =
      elim (run_command S C decode (codes "login")
        ((codes "client_login_name", username) ∷ (codes "client_login_password", password) ∷ [])
        c) [ none ↦ none | some (r, d) ↦ some (answer_of_login r, d) ]

  -- how `serverlist` sets the deadline
  unfoldable pub grow_deadline : List ServerRecord → Client W → Client W
  unfolding count_online
  grow_deadline servers c = record c {
    deadline =
        min (c.deadline + count_online servers * per_virtualserver_timeout)
          (c.started + max_session_timeout);
  }

  abbrev pub listed : Result (List ServerRecord) × Client W → Result (List ServerRecord) × Client W
  listed (ok servers, d) = (ok servers, grow_deadline servers d)
  listed (err e, d) = (err e, d)

  unfoldable pub serverlist : Client W → Option (Result (List ServerRecord) × Client W)
  unfolding command grow_deadline
  serverlist c = elim (command (codes "serverlist") [] c) [ none ↦ none | some r ↦ some (listed r) ]

  unfoldable pub use_server : Option Text → Client W → Option (Result (Unit {0}) × Client W)
  unfolding command
  use_server id c = elim (command (codes "use") ((codes "sid", str id) ∷ []) c) [
    | none ↦ none
    | some (r, d) ↦ some (map_result (λ _. tt) r, d)
  ]

  unfoldable pub serverinfo : Client W → Option (Result ServerRecord × Client W)
  unfolding command
  serverinfo c = elim (command (codes "serverinfo") [] c) [
    | none ↦ none
    | some (r, d) ↦ some (map_result first_record r, d)
  ]

  -- `except OSError: pass`, then the result of `finally`
  abbrev pub after_quit :
      Result (Unit {0}) → Result (Unit {0}) × Client W → Result (Unit {0}) × Client W
  after_quit sent (err e, d) = (err e, d)
  after_quit (err (os_error k m)) (ok _, d) = (ok tt, d)
  after_quit (ok _) (ok _, d) = (ok tt, d)
  after_quit (err (login_failed m)) (ok _, d) = (err (login_failed m), d)
  after_quit (err (server_query_error m)) (ok _, d) = (err (server_query_error m), d)
  after_quit (err unexpected) (ok _, d) = (err unexpected, d)

  unfoldable pub close : Exec (Client W) (Unit {0})
  unfolding send
  close c =
      let (sent, d) = send S C decode (codes "quit") [] c in
      after_quit sent (on_socket S C decode S.close d)
