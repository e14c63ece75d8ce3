-- ===== src/Service/Snapshot.antt =====
-- service.py: the state before and after a session is read.
use teamspeak_prometheus.Base.{
  ◌≡◌, refl, ◌∙◌, Text, codes, list_eq, nat_eq, Option, none, some, List, [], ◌∷◌, Option-cases,
  inl, inr,
}
use teamspeak_prometheus.Exec.{
  Exec, Result, ok, err, Exception, login_failed, server_query_error, os_error, unexpected, pure,
  raise, continue, ◌>>=◌,
}
use teamspeak_prometheus.Redaction.{redact}
use teamspeak_prometheus.Service.Counting.{Counted, none_more, one_more, Counted-trans}
use teamspeak_prometheus.Config.{Config}
use teamspeak_prometheus.Service.State.{ServerRecord, Host, Session, new_session, State}
use teamspeak_prometheus.Service.Reading.{
  on_client, ask, offline, skip_server, labelled, keep_reading, answered, read_server, read_servers,
  read_session, shown_name, get_field, id_key,
}
use teamspeak_prometheus.Service.Polling.{closed_with, closing, log_in_and_read, fetch, all_secrets}

-- What a scrape shows of the virtualservers, and what the service remembers of them, is unchanged.
pub record Kept {H : Host} (s t : State H) : Type 0 where
  pub gauges : t.gauges ≡ s.gauges
  pub missing_fields : t.exporter.missing_fields ≡ s.exporter.missing_fields
  pub known : t.known_virtualservers ≡ s.known_virtualservers
  pub warned_missing : t.warned_missing ≡ s.warned_missing
  pub not_online : t.not_online ≡ s.not_online
  pub warned_duplicates : t.warned_duplicates ≡ s.warned_duplicates
  pub last_poll : t.exporter.last_poll_timestamp ≡ s.exporter.last_poll_timestamp
  pub errors : Counted (H.prometheus) s.exporter.poll_errors t.exporter.poll_errors
  pub last_success :
      t.exporter.last_successful_poll_timestamp ≡ s.exporter.last_successful_poll_timestamp

module _ {H : Host} where
  pub Kept-refl : (s : State H) → Kept s s
  Kept-refl s = record {
    gauges = refl;
    missing_fields = refl;
    known = refl;
    warned_missing = refl;
    not_online = refl;
    warned_duplicates = refl;
    last_poll = refl;
    errors = none_more;
    last_success = refl;
  }

  pub Kept-trans : {s t u : State H} → Kept s t → Kept t u → Kept s u
  Kept-trans h k = record {
    gauges = k.gauges ∙ h.gauges;
    missing_fields = k.missing_fields ∙ h.missing_fields;
    known = k.known ∙ h.known;
    warned_missing = k.warned_missing ∙ h.warned_missing;
    not_online = k.not_online ∙ h.not_online;
    warned_duplicates = k.warned_duplicates ∙ h.warned_duplicates;
    last_poll = k.last_poll ∙ h.last_poll;
    errors = Counted-trans H.prometheus h.errors k.errors;
    last_success = k.last_success ∙ h.last_success;
  }

-- An action that keeps the snapshot, whether it returns or raises.
pub record Frames {H : Host} {A : Type 0} (m : Exec (State H) A) : Type 0 where
  pub at : (s : State H) → Kept s (m s).1

module _ {H : Host} {A : Type 0} where
  pub Frames-pure : (a : A) → Frames {H = H} (pure a)
  Frames-pure a = record { at = λ s. Kept-refl s }

  pub Frames-raise : (e : Exception) → Frames {H = H} {A = A} (raise e)
  Frames-raise e = record { at = λ s. Kept-refl s }

module _ {H : Host} {A B : Type 0} where
  continue-Kept :
      (s : State H) (r : Result A × State H) (f : A → Exec (State H) B)
      → Kept s r.1
      → ((a : A) → Frames (f a))
      → Kept s (continue r f).1
  continue-Kept s (ok a, t) f h k = Kept-trans h ((k a).at t)
  continue-Kept s (err e, t) f h k = h

  pub Frames-bind :
      (m : Exec (State H) A) (f : A → Exec (State H) B)
      → Frames m
      → ((a : A) → Frames (f a))
      → Frames (m >>= f)
  Frames-bind m f h k = record { at = λ s. continue-Kept s (m s) f (h.at s) k }

module _ {H : Host} (secrets : List Text) where
  pub on_client-Frames : {A : Type 0} (call : Exec H.World A) → Frames (on_client H secrets call)
  on_client-Frames call = record {
    at = λ s. record {
      gauges = refl;
      missing_fields = refl;
      known = refl;
      warned_missing = refl;
      not_online = refl;
      warned_duplicates = refl;
      last_poll = refl;
      errors = none_more;
      last_success = refl;
    };
  }

  skip_server-Frames :
      (id : Option Text) (session : Session H.floats.Float)
      → Frames (skip_server H secrets id session)
  unfolding skip_server list_eq nat_eq
  skip_server-Frames id session = record {
    at = λ s. record {
      gauges = refl;
      missing_fields = refl;
      known = refl;
      warned_missing = refl;
      not_online = refl;
      warned_duplicates = refl;
      last_poll = refl;
      errors = one_more (codes "query") refl refl none_more;
      last_success = refl;
    };
  }

  labelled-Frames : (o : Option Text) → Frames (labelled H secrets o)
  labelled-Frames none = Frames-raise unexpected
  labelled-Frames (some t) = record { at = λ s. Kept-refl s }

  keep_reading-Frames :
      (server info : ServerRecord) (session : Session H.floats.Float)
      → Frames (keep_reading H secrets server info session)
  unfolding keep_reading
  keep_reading-Frames server info session =
      Frames-bind (labelled H secrets (redact H.is_printable (shown_name server info) secrets)) _
        (labelled-Frames (redact H.is_printable (shown_name server info) secrets))
        (λ name. record { at = λ s. Kept-refl s })

  answered-Frames :
      (server : ServerRecord) (session : Session H.floats.Float) (r : Result ServerRecord)
      → Frames (answered H secrets server session r)
  answered-Frames server session (ok info) = keep_reading-Frames server info session
  answered-Frames server session (err (login_failed m)) =
      skip_server-Frames (get_field server id_key) session
  answered-Frames server session (err (server_query_error m)) =
      skip_server-Frames (get_field server id_key) session
  answered-Frames server session (err (os_error k m)) = Frames-raise (os_error k m)
  answered-Frames server session (err unexpected) = Frames-raise unexpected

  ask-Frames : (id : Option Text) → Frames (ask H secrets id)
  unfolding ask
  ask-Frames id =
      Frames-bind (on_client H secrets (H.client.use_server id)) _
        (on_client-Frames (H.client.use_server id)) (λ _. on_client-Frames H.client.serverinfo)

  read_server-Frames :
      (server : ServerRecord) (session : Session H.floats.Float)
      → Frames (read_server H secrets server session)
  read_server-Frames server session = record {
    at = λ s. elim (Option-cases (offline server)) [
      | inr (status, e) ↦ unfold read_server in rw (e, read_server) (Kept-refl s)
      | inl e ↦
          unfold read_server in
          rw (e, read_server)
            (answered_after (ask H secrets (get_field server id_key) s)
              ((ask-Frames (get_field server id_key)).at s))
    ];
  }
    where
      answered_after :
          {s : State H} (r : Result ServerRecord × State H)
          → Kept s r.1
          → Kept s (answered H secrets server session r.0 r.1).1
      answered_after (r, t) h = Kept-trans h ((answered-Frames server session r).at t)

  pub read_servers-Frames :
      (servers : List ServerRecord) (session : Session H.floats.Float)
      → Frames (read_servers H secrets servers session)
  unfolding read_servers
  read_servers-Frames [] session = Frames-pure session
  read_servers-Frames (server ∷ servers) session =
      Frames-bind (read_server H secrets server session) (read_servers H secrets servers)
        (read_server-Frames server session) (read_servers-Frames servers)

  pub read_session-Frames : Frames (read_session H secrets)
  unfolding read_session
  read_session-Frames =
      Frames-bind (on_client H secrets H.client.serverlist) _ (on_client-Frames H.client.serverlist)
        (λ servers. read_servers-Frames servers (new_session servers))

module _ (H : Host) (config : Config (H.floats.Float)) (secrets : List Text) where
  open H use {floats, client}

  log_in_and_read-Frames : Frames (log_in_and_read H config secrets)
  unfolding log_in_and_read
  log_in_and_read-Frames =
      Frames-bind _ _
        (on_client-Frames (all_secrets H config secrets)
          (client.login config.username config.password))
        (λ _. read_session-Frames (all_secrets H config secrets))

  closed_with-Kept :
      {A : Type 0} (s : State H) (c : Result (Unit {0}) × State H) (r : Result A)
      → Kept s c.1
      → Kept s (closed_with H config secrets c r).1
  closed_with-Kept s (ok a, t) r h = h
  closed_with-Kept s (err e, t) r h = h

  closing-Frames :
      {A : Type 0} (body : Exec (State H) A) → Frames body → Frames (closing H config secrets body)
  unfolding closing
  closing-Frames body h = record {
    at = λ s.
        let (r, t) = body s in
        closed_with-Kept s (on_client H (all_secrets H config secrets) client.close t) r (
          Kept-trans (h.at s)
            ((on_client-Frames (all_secrets H config secrets) client.close).at t));
  }

  -- Connecting, logging in, reading and closing, whatever fails on the way, change nothing of the
  -- snapshot.
  pub fetch-Frames : Frames (fetch H config secrets)
  unfolding fetch
  fetch-Frames =
      Frames-bind _ _
        (on_client-Frames (all_secrets H config secrets) (client.connect config.host config.port))
        (λ _. closing-Frames (log_in_and_read H config secrets) log_in_and_read-Frames)
