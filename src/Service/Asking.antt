-- ===== src/Service/Asking.antt =====
-- service.py: the calls of `_read` in their order.
use mathlib.Core.List.{append_assoc}
use teamspeak_prometheus.Base.{
  ◌≡◌, ◌∙◌, refl, ap, Text, Option, none, some, List, [], ◌∷◌, ◌++◌, Option-cases, inl, inr,
}
use teamspeak_prometheus.Exec.{
  Exec, Result, ok, err, login_failed, server_query_error, os_error, unexpected, continue,
}
use teamspeak_prometheus.Redaction.{redact}
use teamspeak_prometheus.Service.State.{ServerRecord, Host, Session, new_session, State}
use teamspeak_prometheus.Service.Reading.{
  on_client, ask, offline, skip_server, labelled, keep_reading, answered, read_server, read_servers,
  read_session, shown_name, get_field, id_key,
}
use teamspeak_prometheus.Service.Protocol.{
  done, refused, broken, answer, lists, selects, asks, Phase, ready, listed, selected, ending, Step,
  listing, not_listing, selecting, not_selecting, lost_selecting, asking, not_asking, lost_asking,
  stay, next, recorded,
}
use teamspeak_prometheus.Service.Traced.{
  Arrives, answer-ne-done, calls, Traced, Traced-pure, Traced-raise, continue-Traced, call-Traced,
  survived, Asked, resumed,
}

module _ (H : Host) where
  module _ (secrets : List Text) where
    labelled-Traced :
        {B : Type 0} (o : Option Text) (f : Text → Exec (State (recorded H)) B)
        (s : State (recorded H))
        → ((name : Text) (t : State (recorded H)) → Traced H listed listed t (f name t))
        → Traced H listed listed s (continue (labelled (recorded H) secrets o s) f)
    labelled-Traced none f s h = Traced-raise H listed listed s s unexpected tt refl
    labelled-Traced (some t) f s h = h _ s

    keep_reading-Traced :
        (server info : ServerRecord) (session : Session H.floats.Float) (s : State (recorded H))
        → Traced H listed listed s (keep_reading (recorded H) secrets server info session s)
    unfolding keep_reading
    keep_reading-Traced server info session s =
        labelled-Traced (redact H.is_printable (shown_name server info) secrets) _ s
          (λ name t. Traced-pure H listed t t _ refl)

    answered-Traced :
        (server : ServerRecord) (session : Session H.floats.Float) (s : State (recorded H))
        (x : Result ServerRecord × State (recorded H))
        → Asked H s x
        → Traced H listed listed s (answered (recorded H) secrets server session x.0 x.1)
    unfolding skip_server
    answered-Traced server session s (ok info, t) h =
        resumed H s t (ok info) h refl (keep_reading-Traced server info session t)
    answered-Traced server session s (err (login_failed m), t) h =
        resumed H s t (err (login_failed m)) h refl (Traced-pure H listed t _ _ refl)
    answered-Traced server session s (err (server_query_error m), t) h =
        resumed H s t (err (server_query_error m)) h refl (Traced-pure H listed t _ _ refl)
    answered-Traced server session s (err (os_error k m), t) h = record {
      reached = h.reached;
      events = h.events;
      run = h.run;
      noted_calls = h.noted_calls;
      arrives = rw h.survives tt;
    }
    answered-Traced server session s (err unexpected, t) h = record {
      reached = h.reached;
      events = h.events;
      run = h.run;
      noted_calls = h.noted_calls;
      arrives = rw h.survives tt;
    }

    -- what `serverinfo` leaves, after a selection that was made
    Step-info : (r : Result ServerRecord) → Step selected (asks (answer r)) (survived H r)
    Step-info (ok info) = asking
    Step-info (err (login_failed m)) = not_asking
    Step-info (err (server_query_error m)) = not_asking
    Step-info (err (os_error k m)) = lost_asking
    Step-info (err unexpected) = lost_asking

    info-Asked :
        (s t : State (recorded H))
        → calls H t ≡ calls H s ++ selects done ∷ []
        → Asked H s (on_client (recorded H) secrets (recorded H).client.serverinfo t)
    info-Asked s t e =
        let r = (H.client.serverinfo t.world.0).0 in
        record {
          events = selects done ∷ asks (answer r) ∷ [];
          reached = survived H r;
          run = next selecting (next (Step-info r) stay);
          noted_calls =
              ap (λ l. l ++ asks (answer r) ∷ []) e
              ∙ append_assoc (calls H s) (selects done ∷ []) (asks (answer r) ∷ []);
          survives = refl;
        }

    selected-Asked :
        (s t : State (recorded H)) (r : Result (Unit {0}))
        → calls H t ≡ calls H s ++ selects (answer r) ∷ []
        → Asked H s (
            continue
              (let x : Result (Unit {0}) × State (recorded H) = (r, t) in x)
              (λ _. on_client (recorded H) secrets (recorded H).client.serverinfo))
    selected-Asked s t (ok _) e = info-Asked s t e
    selected-Asked s t (err (login_failed m)) e = record {
      events = selects refused ∷ [];
      reached = listed;
      run = next not_selecting stay;
      noted_calls = e;
      survives = refl;
    }
    selected-Asked s t (err (server_query_error m)) e = record {
      events = selects refused ∷ [];
      reached = listed;
      run = next not_selecting stay;
      noted_calls = e;
      survives = refl;
    }
    selected-Asked s t (err (os_error k m)) e = record {
      events = selects broken ∷ [];
      reached = ending;
      run = next lost_selecting stay;
      noted_calls = e;
      survives = refl;
    }
    selected-Asked s t (err unexpected) e = record {
      events = selects broken ∷ [];
      reached = ending;
      run = next lost_selecting stay;
      noted_calls = e;
      survives = refl;
    }

    ask-Asked :
        (id : Option Text) (s : State (recorded H)) → Asked H s (ask (recorded H) secrets id s)
    unfolding ask
    ask-Asked id s =
        let x = on_client (recorded H) secrets ((recorded H).client.use_server id) s in
        selected-Asked s x.1 x.0 refl

    read_server-Traced :
        (server : ServerRecord) (session : Session H.floats.Float) (s : State (recorded H))
        → Traced H listed listed s (read_server (recorded H) secrets server session s)
    read_server-Traced server session s = elim (Option-cases (offline server)) [
      | inr (status, e) ↦
          unfold read_server in rw (e, read_server) (Traced-pure H listed s s _ refl)
      | inl e ↦
          let id = get_field server id_key in
          unfold read_server in
          rw (e, read_server)
            (answered-Traced server session s (ask (recorded H) secrets id s) (ask-Asked id s))
    ]

    read_servers-Traced :
        (servers : List ServerRecord) (session : Session H.floats.Float) (s : State (recorded H))
        → Traced H listed listed s (read_servers (recorded H) secrets servers session s)
    unfolding read_servers
    read_servers-Traced [] session s = Traced-pure H listed s s session refl
    read_servers-Traced (server ∷ servers) session s =
        continue-Traced H listed listed listed s (read_server (recorded H) secrets server session s)
          (read_servers (recorded H) secrets servers) (read_server-Traced server session s)
          (read_servers-Traced servers)

    Step-list :
        (r : Result (List ServerRecord))
        → (q : Phase) × (Step ready (lists (answer r)) q) × Arrives listed r q
    Step-list (ok servers) = (listed, listing, refl)
    Step-list (err e) = (
      ending,
      not_listing (answer {A = List ServerRecord} (err e)) (answer-ne-done (List ServerRecord) e),
      tt,
    )

    pub read_session-Traced :
        (s : State (recorded H)) → Traced H ready listed s (read_session (recorded H) secrets s)
    unfolding read_session
    read_session-Traced s =
        continue-Traced H ready listed listed s
          (on_client (recorded H) secrets (recorded H).client.serverlist s)
          (λ servers. read_servers (recorded H) secrets servers (new_session servers))
          (call-Traced H ready listed lists secrets H.client.serverlist s Step-list)
          (λ servers t. read_servers-Traced servers (new_session servers) t)
