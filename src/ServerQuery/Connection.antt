-- ===== src/ServerQuery/Connection.antt =====
-- serverquery.py: `__init__` and `connect`, and the client as the service calls it.
use teamspeak_prometheus.Base.{
  ℕ, ◌+◌, true, false, Option, none, some, List, [], Text, codes, same, list_eq, nat_eq,
}
use teamspeak_prometheus.Exec.{
  Exec, Exception, Result, ok, err, login_failed, server_query_error, os_error, unexpected,
  connection, timeout, other_os,
}
use teamspeak_prometheus.Characters.{Characters}
use teamspeak_prometheus.Service.State.{Ts3Client}
use teamspeak_prometheus.ServerQuery.{Socket, Client, read_line, session_timeout}
use teamspeak_prometheus.ServerQuery.Session.{login, serverlist, use_server, serverinfo, close}

-- `except ConnectionError` around the greeting
abbrev pub greeting_failed : Exception → Exception
greeting_failed (os_error connection m) = os_error connection (
    codes
      "ServerQuery closed the connection before greeting; this IP may be banned for flooding or failed logins, see query_ip_allowlist")
greeting_failed (os_error timeout m) = os_error timeout m
greeting_failed (os_error other_os m) = os_error other_os m
greeting_failed (login_failed m) = login_failed m
greeting_failed (server_query_error m) = server_query_error m
greeting_failed unexpected = unexpected

module _ {W : Type 0} (S : Socket W) (C : Characters) (decode : List ℕ → Text) where
  -- what `__init__` sets before it reads
  abbrev pub new_client : W → Client W
  new_client world =
      let (now, w) = S.clock world in
      record {
        world = w;
        buffer = [];
        received = 0;
        started = now;
        deadline = now + session_timeout;
      }

  abbrev pub ignored : {A : Type 0} → Result A → Result (Unit {0})
  ignored (ok a) = ok tt
  ignored (err e) = err e

  -- the two lines of the greeting
  unfoldable pub greet : Client W → Option (Result (Unit {0}) × Client W)
  greet c = elim (read_line S c) [
    | none ↦ none
    | some (err e, d) ↦ some (err (greeting_failed e), d)
    | some (ok bytes, d) ↦ elim (same (decode bytes) (codes "TS3")) [
      | false ↦
          some (err (os_error connection (codes "not a TeamSpeak 3 ServerQuery interface")), d)
      | true ↦ elim (read_line S d) [ none ↦ none | some (r, e) ↦ some (ignored r, e) ]
    ]
  ]

  abbrev pub or_raise : Result (Unit {0}) × W → Exception → Client W → Result (Unit {0}) × Client W
  or_raise (ok _, w) e c = (err e, record c { world = w })
  or_raise (err f, w) e c = (err f, record c { world = w })

  -- `except BaseException: connection.close(); raise`
  abbrev pub close_on_error : Result (Unit {0}) × Client W → Result (Unit {0}) × Client W
  close_on_error (ok _, c) = (ok tt, c)
  close_on_error (err e, c) = or_raise (S.close c.world) e c

  abbrev pub greeted : Option (Result (Unit {0}) × Client W) → Option (Result (Unit {0}) × Client W)
  greeted none = none
  greeted (some r) = some (close_on_error r)

  abbrev pub dialled : Result (Unit {0}) × W → Client W → Option (Result (Unit {0}) × Client W)
  dialled (err e, w) c = some (err e, record c { world = w })
  dialled (ok _, w) c = greeted (greet (new_client w))

  -- `connect`, which takes nothing of an earlier session but the world
  unfoldable pub connect : Text → ℕ → Client W → Option (Result (Unit {0}) × Client W)
  unfolding greet
  connect host port c = dialled (S.dial host port c.world) c

  -- `none`, a lack of fuel, has no counterpart in the code
  abbrev pub finish : {A : Type 0} → Option (Result A × Client W) → Exec (Client W) A
  finish none c = (err unexpected, c)
  finish (some r) c = r

  unfoldable pub ts3_client : Ts3Client (Client W)
  unfolding connect login serverlist use_server serverinfo close
  ts3_client = record {
    connect = λ host port c. finish (connect host port c) c;
    login = λ username password c. finish (login S C decode username password c) c;
    serverlist = λ c. finish (serverlist S C decode c) c;
    use_server = λ id c. finish (use_server S C decode id c) c;
    serverinfo = λ c. finish (serverinfo S C decode c) c;
    close = close S C decode;
  }
