-- ===== src/Service/Follows.antt =====
-- service.py: the calls of a poll in their order.
use mathlib.Core.List.{append_assoc}
use teamspeak_prometheus.Base.{◌≡◌, ◌∙◌, refl, sym, ap, subst, Text, List, [], ◌∷◌, ◌++◌}
use teamspeak_prometheus.Exec.{Exec, Result, ok, err, continue}
use teamspeak_prometheus.Config.{Config}
use teamspeak_prometheus.Metrics.{IsLawful}
use teamspeak_prometheus.Service.State.{Host, State}
use teamspeak_prometheus.Service.Reading.{on_client, read_session}
use teamspeak_prometheus.Service.Polling.{
  Times, all_secrets, log_in_and_read, closed_with, closing, fetch, stamp_start, poll,
}
use teamspeak_prometheus.Service.Recorded.{HasAll}
use teamspeak_prometheus.Service.Closing.{poll-world}
use teamspeak_prometheus.Service.Protocol.{
  Answer, done, answer, Event, connects, logs_in, closes, Phase, down, up, ready, listed, selected,
  ending, over, Step, connected, not_connected, logged_in, not_logged_in, closing_read,
  closing_early, Run, stay, next, Run-append, recorded,
}
use teamspeak_prometheus.Service.Traced.{
  Closable, Arrives, answer-ne-done, calls, Traced, continue-Traced, call-Traced,
}
use teamspeak_prometheus.Service.Asking.{read_session-Traced}

module _ (H : Host) (config : Config (H.floats.Float)) (secrets : List Text) where
  abbrev prepared : List Text
  prepared = all_secrets (recorded H) config secrets

  Step-login :
      (r : Result (Unit {0})) → (q : Phase) × (Step up (logs_in (answer r)) q) × Arrives ready r q
  Step-login (ok _) = (ready, logged_in, refl)
  Step-login (err e) =
      (ending, not_logged_in (answer {A = Unit {0}} (err e)) (answer-ne-done (Unit {0}) e), tt)

  log_in_and_read-Traced :
      (s : State (recorded H))
      → Traced H up listed s (log_in_and_read (recorded H) config secrets s)
  unfolding log_in_and_read
  log_in_and_read-Traced s =
      continue-Traced H up ready listed s
        (on_client (recorded H) prepared ((recorded H).client.login config.username config.password)
          s)
        (λ _. read_session (recorded H) prepared)
        (call-Traced H up ready logs_in prepared (H.client.login config.username config.password) s
          Step-login)
        (λ _ t. read_session-Traced H prepared t)

  -- a whole session, or the rest of one from a phase
  record Ended (p : Phase) (s t : State (recorded H)) : Type 0 where
    pub events : List Event
    pub run : Run p events over
    pub noted_calls : calls H t ≡ calls H s ++ events

  Step-close : (p : Phase) (a : Answer) → Closable p → Step p (closes a) over
  Step-close listed a c = closing_read a
  Step-close ending a c = closing_early a
  Step-close down a c = absurd c
  Step-close up a c = absurd c
  Step-close ready a c = absurd c
  Step-close selected a c = absurd c
  Step-close over a c = absurd c

  Closable-Arrives : {A : Type 0} (r : Result A) (p : Phase) → Arrives listed r p → Closable p
  Closable-Arrives (ok a) p e = subst (λ q. Closable q) (sym e) tt
  Closable-Arrives (err x) p c = c

  closed_with-calls :
      {A : Type 0} (c : Result (Unit {0}) × State (recorded H)) (r : Result A)
      → calls H (closed_with (recorded H) config secrets c r).1 ≡ calls H c.1
  closed_with-calls (ok a, s) r = refl
  closed_with-calls (err e, s) r = refl

  closing-Ended :
      {A : Type 0} (p : Phase) (body : Exec (State (recorded H)) A) (s : State (recorded H))
      → Traced H p listed s (body s)
      → Ended p s (closing (recorded H) config secrets body s).1
  unfolding closing
  closing-Ended p body s h =
      let t : State (recorded H) = (body s).1 in
      let a = answer (H.client.close t.world.0).0 in
      record {
        events = h.events ++ closes a ∷ [];
        run =
            Run-append h.run (
              next (Step-close h.reached a (Closable-Arrives (body s).0 h.reached h.arrives)) stay);
        noted_calls =
            closed_with-calls (on_client (recorded H) prepared (recorded H).client.close t)
              (body s).0
            ∙ ap (λ l. l ++ closes a ∷ []) h.noted_calls
            ∙ append_assoc (calls H s) h.events (closes a ∷ []);
      }

  connected-Ended :
      (s t : State (recorded H)) (r : Result (Unit {0}))
      → calls H t ≡ calls H s ++ connects (answer r) ∷ []
      → Ended down s
          (continue (let x : Result (Unit {0}) × State (recorded H) = (r, t) in x) (λ _.
            closing (recorded H) config secrets (log_in_and_read (recorded H) config secrets))).1
  connected-Ended s t (err e) noted_calls = record {
    events = connects (answer {A = Unit {0}} (err e)) ∷ [];
    run = next (not_connected (answer {A = Unit {0}} (err e)) (answer-ne-done (Unit {0}) e)) stay;
    noted_calls = noted_calls;
  }
  connected-Ended s t (ok _) noted_calls =
      let rest =
        closing-Ended up (log_in_and_read (recorded H) config secrets) t
          (log_in_and_read-Traced t) in
      record {
        events = connects done ∷ rest.events;
        run = next connected rest.run;
        noted_calls =
            rest.noted_calls
            ∙ ap (λ l. l ++ rest.events) noted_calls
            ∙ append_assoc (calls H s) (connects done ∷ []) rest.events;
      }

  fetch-Ended : (s : State (recorded H)) → Ended down s (fetch (recorded H) config secrets s).1
  unfolding fetch
  fetch-Ended s =
      let x =
        on_client (recorded H) prepared ((recorded H).client.connect config.host config.port) s in
      connected-Ended s x.1 x.0 refl

  -- If the service has the gauges of all contract metrics, the calls of a poll are one whole run of the
  -- protocol: the connection first and, if it is made, one login, then the list of the virtualservers,
  -- then of one virtualserver after the other its selection and, if that is made, its data, and `close`
  -- last and once. A call that fails ends the session, with `close` if there is a connection, unless it
  -- asks for a virtualserver and the server refuses.
  pub poll-Follows :
      (L : IsLawful (H.prometheus)) (times : Times (H.floats.Float)) (s : State (recorded H))
      → HasAll (recorded H) s
      → (events : List Event) × (Run down events over)
        × (calls H (poll (recorded H) config secrets times s).1 ≡ calls H s ++ events)
  poll-Follows L times s h =
      let session = fetch-Ended (stamp_start (recorded H) config secrets times.started s) in
      (
        session.events,
        session.run,
        ap (λ w. w.1) (poll-world (recorded H) L config secrets times s h)
            ∙ session.noted_calls
            ∙ (unfold stamp_start in refl),
      )
