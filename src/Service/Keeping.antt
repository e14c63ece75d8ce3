-- ===== src/Service/Keeping.antt =====
-- service.py: what reading leaves as it is in the world of the client.
use teamspeak_prometheus.Base.{Text, Option, none, some, List, [], ◌∷◌, Option-cases, inl, inr}
use teamspeak_prometheus.Exec.{
  Exec, Result, ok, err, login_failed, server_query_error, os_error, unexpected, continue,
}
use teamspeak_prometheus.Redaction.{redact}
use teamspeak_prometheus.Config.{Config}
use teamspeak_prometheus.Service.State.{ServerRecord, Ts3Client, Host, Session, new_session, State}
use teamspeak_prometheus.Service.Reading.{
  on_client, ask, offline, skip_server, labelled, keep_reading, answered, read_server, read_servers,
  read_session, shown_name, get_field, id_key,
}
use teamspeak_prometheus.Service.Polling.{all_secrets, log_in_and_read}

-- A property of the world that the calls between the connection and `close` keep.
pub record IsUndisturbed {W : Type 0} (client : Ts3Client W) (Q : W → Type 0) : Type 0 where
  pub login : (username password : Text) (w : W) → Q w → Q (client.login username password w).1
  pub serverlist : (w : W) → Q w → Q (client.serverlist w).1
  pub use_server : (id : Option Text) (w : W) → Q w → Q (client.use_server id w).1
  pub serverinfo : (w : W) → Q w → Q (client.serverinfo w).1

module _ (H : Host) (Q : H.World → Type 0) (U : IsUndisturbed (H.client) Q) where
  open H use {floats, client}

  continue-Keeps :
      {A B : Type 0} (x : Result A × State H) (f : A → Exec (State H) B)
      → Q x.1.world
      → ((a : A) (t : State H) → Q t.world → Q (f a t).1.world)
      → Q (continue x f).1.world
  continue-Keeps (ok a, t) f h k = k a t h
  continue-Keeps (err e, t) f h k = h

  module _ (secrets : List Text) where
    labelled-Keeps :
        {A : Type 0} (o : Option Text) (f : Text → Exec (State H) A) (s : State H)
        → Q s.world
        → ((name : Text) (t : State H) → Q t.world → Q (f name t).1.world)
        → Q (continue (labelled H secrets o s) f).1.world
    labelled-Keeps none f s h k = h
    labelled-Keeps (some t) f s h k = k _ s h

    answered-Keeps :
        (server : ServerRecord) (session : Session floats.Float) (r : Result ServerRecord)
        (s : State H)
        → Q s.world
        → Q (answered H secrets server session r s).1.world
    unfolding keep_reading skip_server
    answered-Keeps server session (ok info) s h =
        labelled-Keeps (redact H.is_printable (shown_name server info) secrets) _ s h
          (λ name t k. k)
    answered-Keeps server session (err (login_failed m)) s h = h
    answered-Keeps server session (err (server_query_error m)) s h = h
    answered-Keeps server session (err (os_error k m)) s h = h
    answered-Keeps server session (err unexpected) s h = h

    ask-Keeps : (id : Option Text) (s : State H) → Q s.world → Q (ask H secrets id s).1.world
    unfolding ask
    ask-Keeps id s h =
        continue-Keeps (on_client H secrets (client.use_server id) s)
          (λ _. on_client H secrets client.serverinfo) (U.use_server id s.world h)
          (λ _ t k. U.serverinfo t.world k)

    read_server-Keeps :
        (server : ServerRecord) (session : Session floats.Float) (s : State H)
        → Q s.world
        → Q (read_server H secrets server session s).1.world
    read_server-Keeps server session s h = elim (Option-cases (offline server)) [
      | inr (status, e) ↦ unfold read_server in rw (e, read_server) h
      | inl e ↦
          let id = get_field server id_key in
          let (r, t) = ask H secrets id s in
          unfold read_server in
          rw (e, read_server) (answered-Keeps server session r t (ask-Keeps id s h))
    ]

    read_servers-Keeps :
        (servers : List ServerRecord) (session : Session floats.Float) (s : State H)
        → Q s.world
        → Q (read_servers H secrets servers session s).1.world
    unfolding read_servers
    read_servers-Keeps [] session s h = h
    read_servers-Keeps (server ∷ servers) session s h =
        continue-Keeps (read_server H secrets server session s) (read_servers H secrets servers)
          (read_server-Keeps server session s h) (read_servers-Keeps servers)

    read_session-Keeps : (s : State H) → Q s.world → Q (read_session H secrets s).1.world
    unfolding read_session
    read_session-Keeps s h =
        continue-Keeps (on_client H secrets client.serverlist s)
          (λ servers. read_servers H secrets servers (new_session servers)) (U.serverlist s.world h)
          (λ servers t k. read_servers-Keeps servers (new_session servers) t k)

  pub log_in_and_read-Keeps :
      (config : Config floats.Float) (secrets : List Text) (s : State H)
      → Q s.world
      → Q (log_in_and_read H config secrets s).1.world
  unfolding log_in_and_read
  log_in_and_read-Keeps config secrets s h =
      let prepared = all_secrets H config secrets in
      continue-Keeps (on_client H prepared (client.login config.username config.password) s)
        (λ _. read_session H prepared) (U.login config.username config.password s.world h)
        (λ _ t k. read_session-Keeps prepared t k)
