-- ===== src/Service/Results.antt =====
-- service.py: the result that a session that was read carries.
use teamspeak_prometheus.Base.{◌≢◌, Text, Option, none, some, List, [], ◌∷◌, Option-cases, inl, inr}
use teamspeak_prometheus.Exec.{
  Exec, Result, ok, err, login_failed, server_query_error, os_error, unexpected, continue,
}
use teamspeak_prometheus.Redaction.{redact}
use teamspeak_prometheus.Config.{Config}
use teamspeak_prometheus.Service.State.{ServerRecord, Host, PollResult, Session, new_session, State}
use teamspeak_prometheus.Service.Reading.{
  on_client, ask, offline, skip_server, labelled, keep_reading, answered, read_server, read_servers,
  read_session, shown_name, get_field, id_key,
}
use teamspeak_prometheus.Service.Polling.{all_secrets, log_in_and_read, closed_with, closing, fetch}

-- A session that was read is complete or partial.
abbrev pub IsRead : {Float : Type 0} → Result (Session Float) → Type 0
IsRead (ok session) = session.result ≢ PollResult.failed
IsRead (err e) = Unit

module _ (H : Host) (secrets : List Text) where
  open H use {floats, client}

  partial-ne-failed : PollResult.partial ≢ PollResult.failed
  partial-ne-failed e = cc

  labelled-IsRead :
      (o : Option Text) (f : Text → Exec (State H) (Session floats.Float)) (s : State H)
      → ((name : Text) (t : State H) → IsRead (f name t).0)
      → IsRead (continue (labelled H secrets o s) f).0
  labelled-IsRead none f s h = tt
  labelled-IsRead (some t) f s h = h _ s

  answered-IsRead :
      (server : ServerRecord) (session : Session floats.Float) (r : Result ServerRecord)
      (s : State H)
      → session.result ≢ PollResult.failed
      → IsRead (answered H secrets server session r s).0
  answered-IsRead server session (ok info) s h =
      unfold keep_reading in
      labelled-IsRead (redact H.is_printable (shown_name server info) secrets) _ s (λ name t. h)
  answered-IsRead server session (err (login_failed m)) s h =
      unfold skip_server in partial-ne-failed
  answered-IsRead server session (err (server_query_error m)) s h =
      unfold skip_server in partial-ne-failed
  answered-IsRead server session (err (os_error k m)) s h = tt
  answered-IsRead server session (err unexpected) s h = tt

  read_server-IsRead :
      (server : ServerRecord) (session : Session floats.Float) (s : State H)
      → session.result ≢ PollResult.failed
      → IsRead (read_server H secrets server session s).0
  read_server-IsRead server session s h = elim (Option-cases (offline server)) [
    | inr (status, e) ↦ unfold read_server in rw (e, read_server) h
    | inl e ↦
        unfold read_server in
        rw (e, read_server)
          (let (r, t) = ask H secrets (get_field server id_key) s in
            answered-IsRead server session r t h)
  ]

  continue-IsRead :
      (r : Result (Session floats.Float) × State H)
      (f : Session floats.Float → Exec (State H) (Session floats.Float))
      → IsRead r.0
      → ((session : Session floats.Float) (s : State H)
          → session.result ≢ PollResult.failed
          → IsRead (f session s).0)
      → IsRead (continue r f).0
  continue-IsRead (ok session, s) f h k = k session s h
  continue-IsRead (err e, s) f h k = tt

  read_servers-IsRead :
      (servers : List ServerRecord) (session : Session floats.Float) (s : State H)
      → session.result ≢ PollResult.failed
      → IsRead (read_servers H secrets servers session s).0
  unfolding read_servers
  read_servers-IsRead [] session s h = h
  read_servers-IsRead (server ∷ servers) session s h =
      continue-IsRead (read_server H secrets server session s) (read_servers H secrets servers)
        (read_server-IsRead server session s h) (read_servers-IsRead servers)

  ok-ne-failed : PollResult.ok ≢ PollResult.failed
  ok-ne-failed e = cc

  listed-IsRead :
      (r : Result (List ServerRecord) × State H)
      → IsRead (continue r (λ servers. read_servers H secrets servers (new_session servers))).0
  listed-IsRead (ok servers, s) = read_servers-IsRead servers (new_session servers) s ok-ne-failed
  listed-IsRead (err e, s) = tt

  pub read_session-IsRead : (s : State H) → IsRead (read_session H secrets s).0
  unfolding read_session
  read_session-IsRead s = listed-IsRead (on_client H secrets client.serverlist s)

module _ (H : Host) (config : Config (H.floats.Float)) (secrets : List Text) where
  open H use {floats, client}

  logged_in-IsRead :
      (r : Result (Unit {0}) × State H)
      → IsRead (continue r (λ _. read_session H (all_secrets H config secrets))).0
  logged_in-IsRead (ok a, s) = read_session-IsRead H (all_secrets H config secrets) s
  logged_in-IsRead (err e, s) = tt

  closed_with-IsRead :
      (c : Result (Unit {0}) × State H) (r : Result (Session floats.Float))
      → IsRead r
      → IsRead (closed_with H config secrets c r).0
  closed_with-IsRead (ok a, s) r h = h
  closed_with-IsRead (err e, s) r h = tt

  connected-IsRead :
      (r : Result (Unit {0}) × State H)
      → IsRead (continue r (λ _. closing H config secrets (log_in_and_read H config secrets))).0
  connected-IsRead (err e, s) = tt
  connected-IsRead (ok a, s) =
      let body = log_in_and_read H config secrets s in
      unfold closing in
      closed_with-IsRead (on_client H (all_secrets H config secrets) client.close body.1) body.0 (
        unfold log_in_and_read in
        logged_in-IsRead (
          on_client H (all_secrets H config secrets) (client.login config.username config.password)
            s))

  -- A session that is fetched is never marked as failed.
  pub fetch-IsRead : (s : State H) → IsRead (fetch H config secrets s).0
  unfolding fetch
  fetch-IsRead s =
      connected-IsRead
        (on_client H (all_secrets H config secrets) (client.connect config.host config.port) s)
