-- ===== src/Service/Reading.antt =====
-- service.py: `_read`.
use teamspeak_prometheus.Base.{
  Text, codes, Option, none, some, List, [], ◌∷◌, ◌++◌, if◌then◌else◌, is_empty, same, list_eq,
  nat_eq,
}
use teamspeak_prometheus.Base.Dict
use teamspeak_prometheus.Base.Dict.{Dict}
use teamspeak_prometheus.Exec.{
  Exec, Result, ok, err, login_failed, server_query_error, os_error, unexpected, pure, raise, ◌>>=◌,
  ◌>>◌,
}
use teamspeak_prometheus.Redaction.{redact}
use teamspeak_prometheus.Metrics.{Field, sent, contract_values, label_value, virtualserver_label}
use teamspeak_prometheus.Service.State.{
  ServerRecord, Host, PollResult, skipping, Session, new_session, State,
}

abbrev pub status_key : Text
status_key = codes "virtualserver_status"

abbrev pub id_key : Text
id_key = codes "virtualserver_id"

abbrev pub flat : Option (Option Text) → Option Text
flat none = none
flat (some o) = o

-- `server.get(key)`
unfoldable pub get_field : ServerRecord → Text → Option Text
get_field server key = flat (Dict.get server key)

-- `str(value)` of a text or `None`
abbrev pub str : Option Text → Text
str none = codes "None"
str (some t) = t

-- `a or b`, where `None` and the empty text are false
abbrev pub or_text : Option Text → Text → Text
or_text none t = t
or_text (some s) t = if is_empty s then t else s

-- `status not in (None, 'online')`, with the status
unfoldable pub offline : ServerRecord → Option Text
unfolding get_field
offline server = elim (get_field server status_key) [
  | none ↦ none
  | some status ↦ if same status (codes "online") then none else some status
]

-- the name that becomes a label, before it is censored and cut
unfoldable pub shown_name : ServerRecord → ServerRecord → Text
unfolding get_field
shown_name server info = or_text (get_field info virtualserver_label) (
    or_text (get_field server virtualserver_label)
      (codes "virtualserver " ++ str (get_field server id_key)))

-- what the server sent, as a mapping of objects
unfoldable pub fields_of : {Float : Type 0} → ServerRecord → Dict Text (Field Float)
fields_of [] = []
fields_of ((key, value) ∷ info) = (key, sent value) ∷ fields_of info

-- `owners.setdefault(name, []).append(id)`
unfoldable pub add_owner : Dict Text (List Text) → Text → Text → Dict Text (List Text)
add_owner owners name id = elim (Dict.get owners name) [
  | none ↦ Dict.put owners name (id ∷ [])
  | some ids ↦ Dict.put owners name (ids ++ id ∷ [])
]

module _ (H : Host) (secrets : List Text) where
  open H use {floats, client, World}

  -- a call of the client
  abbrev pub on_client : {A : Type 0} → Exec World A → Exec (State H) A
  on_client call s = let (r, w) = call s.world in (r, record s { world = w })

  -- `client.use(id)` and `client.serverinfo()`
  unfoldable pub ask : Option Text → Exec (State H) ServerRecord
  ask id = do on_client (client.use_server id); on_client client.serverinfo

  -- `except ServerQueryError`, of which `LoginFailed` is a subclass
  unfoldable pub skip_server :
      Option Text → Session floats.Float → Exec (State H) (Session floats.Float)
  skip_server id session s = (
    ok (record session { result = PollResult.partial }),
    record s {
      log = s.log ++ skipping id ∷ [];
      exporter = record (s.exporter) {
        poll_errors = H.prometheus.inc s.exporter.poll_errors (codes "query");
      };
    },
  )

  abbrev pub labelled : Option Text → Exec (State H) Text
  labelled none = raise unexpected
  labelled (some censored) = pure (label_value censored)

  unfoldable pub keep_reading :
      ServerRecord → ServerRecord → Session floats.Float → Exec (State H) (Session floats.Float)
  unfolding shown_name fields_of add_owner
  keep_reading server info session = do
    name ← labelled (redact H.is_printable (shown_name server info) secrets)
    pure (record session {
      readings = session.readings ++ (name, contract_values floats (fields_of info)) ∷ [];
      owners = add_owner session.owners name (str (get_field server id_key));
    })

  abbrev pub answered :
      ServerRecord
      → Session floats.Float
      → Result ServerRecord
      → Exec (State H) (Session floats.Float)
  answered server session (ok info) = keep_reading server info session
  answered server session (err (login_failed m)) = skip_server (get_field server id_key) session
  answered server session (err (server_query_error m)) =
      skip_server (get_field server id_key) session
  answered server session (err (os_error k m)) = raise (os_error k m)
  answered server session (err unexpected) = raise unexpected

  -- one round of the loop of `_read`
  unfoldable pub read_server :
      ServerRecord → Session floats.Float → Exec (State H) (Session floats.Float)
  unfolding ask skip_server keep_reading offline
  read_server server session s = elim (offline server) [
    | some status ↦ (
      ok (record session {
        not_online = Dict.put session.not_online (str (get_field server id_key)) status;
      }),
      s,
    )
    | none ↦ let (r, t) = ask (get_field server id_key) s in answered server session r t
  ]

  unfoldable pub read_servers :
      List ServerRecord → Session floats.Float → Exec (State H) (Session floats.Float)
  unfolding read_server
  read_servers [] session = pure session
  read_servers (server ∷ servers) session = do
    next ← read_server server session
    read_servers servers next

  -- `_read`
  unfoldable pub read_session : Exec (State H) (Session floats.Float)
  unfolding read_servers
  read_session = do
    servers ← on_client client.serverlist
    read_servers servers (new_session servers)
