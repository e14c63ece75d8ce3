-- ===== src/Service/Protocol.antt =====
-- service.py: the order of the calls that a session makes of `Ts3Client`, as a state machine, and a
-- client that keeps a record of its calls.
use teamspeak_prometheus.Base.{◌≢◌, List, [], ◌∷◌, ◌++◌}
use teamspeak_prometheus.Exec.{
  Exec, Result, ok, err, login_failed, server_query_error, os_error, unexpected,
}
use teamspeak_prometheus.Service.State.{Ts3Client, Host}

-- How a call ends: it returns, the server refuses it, or the session cannot go on.
pub data Answer : Type 0 where
  done refused broken : Answer

abbrev pub answer : {A : Type 0} → Result A → Answer
answer (ok a) = done
answer (err (login_failed m)) = refused
answer (err (server_query_error m)) = refused
answer (err (os_error k m)) = broken
answer (err unexpected) = broken

pub data Event : Type 0 where
  connects logs_in lists selects asks closes : Answer → Event

-- Before the connection, connected, logged in, with the list of virtualservers, with one selected, with
-- nothing left to do but close, and afterwards.
pub data Phase : Type 0 where
  down up ready listed selected ending over : Phase

-- The calls that each phase allows. A call that fails ends the session, but for the selection and the
-- data of a virtualserver, which the server may refuse.
pub data Step : Phase → Event → Phase → Type 0 where
  connected : Step down (connects done) up
  not_connected : (a : Answer) → a ≢ done → Step down (connects a) over
  logged_in : Step up (logs_in done) ready
  not_logged_in : (a : Answer) → a ≢ done → Step up (logs_in a) ending
  listing : Step ready (lists done) listed
  not_listing : (a : Answer) → a ≢ done → Step ready (lists a) ending
  selecting : Step listed (selects done) selected
  not_selecting : Step listed (selects refused) listed
  lost_selecting : Step listed (selects broken) ending
  asking : Step selected (asks done) listed
  not_asking : Step selected (asks refused) listed
  lost_asking : Step selected (asks broken) ending
  closing_read : (a : Answer) → Step listed (closes a) over
  closing_early : (a : Answer) → Step ending (closes a) over

-- a sequence of calls from one phase to another
pub data Run : Phase → List Event → Phase → Type 0 where
  stay : {p : Phase} → Run p [] p
  next :
      {p q r : Phase} {event : Event} {events : List Event}
      → Step p event q
      → Run q events r
      → Run p (event ∷ events) r

pub Run-append : {p q r : Phase} {xs ys : List Event} → Run p xs q → Run q ys r → Run p (xs ++ ys) r
Run-append stay later = later
Run-append (next step run) later = next step (Run-append run later)

module _ {W : Type 0} where
  -- the call, with its event written down behind those before it
  abbrev pub noted : {A : Type 0} → (Answer → Event) → Exec W A → Exec (W × List Event) A
  noted event call (w, events) =
      let (r, after) = call w in (r, (after, events ++ event (answer r) ∷ []))

  abbrev pub recording : Ts3Client W → Ts3Client (W × List Event)
  recording client = record {
    connect = λ host port. noted connects (client.connect host port);
    login = λ username password. noted logs_in (client.login username password);
    serverlist = noted lists (client.serverlist);
    use_server = λ id. noted selects (client.use_server id);
    serverinfo = noted asks (client.serverinfo);
    close = noted closes (client.close);
  }

abbrev pub recorded : Host → Host
recorded H = record {
  floats = H.floats;
  prometheus = H.prometheus;
  World = H.World × List Event;
  client = recording (H.client);
  is_printable = H.is_printable;
}
