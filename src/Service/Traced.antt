-- ===== src/Service/Traced.antt =====
-- service.py: the calls of a part of a session, and how parts go together.
use mathlib.Core.List.{append_assoc}
use teamspeak_prometheus.Base.{
  ◌≡◌, ◌≢◌, ◌∙◌, refl, sym, ap, subst, Text, List, [], ◌∷◌, ◌++◌, append-nil,
}
use teamspeak_prometheus.Exec.{
  Exec, Result, ok, err, Exception, login_failed, server_query_error, os_error, unexpected,
  continue,
}
use teamspeak_prometheus.Service.State.{ServerRecord, Host, State}
use teamspeak_prometheus.Service.Reading.{on_client}
use teamspeak_prometheus.Service.Protocol.{
  Answer, done, refused, broken, answer, Event, Phase, listed, ending, Step, Run, stay, next,
  Run-append, noted, recorded,
}

-- A phase from which the session can only be closed, or that can be closed as well as go on.
abbrev pub Closable : Phase → Type 0
Closable listed = Unit
Closable ending = Unit
Closable _ = ⊥

-- where a part of the session ends that leads to `good` if it returns
abbrev pub Arrives : {A : Type 0} → Phase → Result A → Phase → Type 0
Arrives good (ok a) p = p ≡ good
Arrives good (err e) p = Closable p

pub answer-ne-done : (A : Type 0) (e : Exception) → answer {A = A} (err e) ≢ done
answer-ne-done A (login_failed m) q = cc
answer-ne-done A (server_query_error m) q = cc
answer-ne-done A (os_error k m) q = cc
answer-ne-done A unexpected q = cc

module _ (H : Host) where
  -- the calls that are on record
  abbrev pub calls : State (recorded H) → List Event
  calls s = s.world.1

  -- a part of a session, from one phase and state
  pub record Traced {A : Type 0} (p good : Phase) (s : State (recorded H))
      (x : Result A × State (recorded H)) : Type 0 where
    pub reached : Phase
    pub events : List Event
    pub run : Run p events reached
    pub noted_calls : calls x.1 ≡ calls s ++ events
    pub arrives : Arrives good x.0 reached

  pub Traced-pure :
      {A : Type 0} (p : Phase) (s t : State (recorded H)) (a : A)
      → calls t ≡ calls s
      → Traced p p s (ok a, t)
  Traced-pure p s t a e = record {
    reached = p;
    events = [];
    run = stay;
    noted_calls = e ∙ sym (append-nil (calls s));
    arrives = refl;
  }

  pub Traced-raise :
      {A : Type 0} (p good : Phase) (s t : State (recorded H)) (e : Exception)
      → Closable p
      → calls t ≡ calls s
      → Traced {A = A} p good s (err e, t)
  Traced-raise p good s t x c e = record {
    reached = p;
    events = [];
    run = stay;
    noted_calls = e ∙ sym (append-nil (calls s));
    arrives = c;
  }

  pub continue-Traced :
      {A B : Type 0} (p mid good : Phase) (s : State (recorded H))
      (x : Result A × State (recorded H)) (f : A → Exec (State (recorded H)) B)
      → Traced p mid s x
      → ((a : A) (t : State (recorded H)) → Traced mid good t (f a t))
      → Traced p good s (continue x f)
  continue-Traced p mid good s (err e, t) f h k = record {
    reached = h.reached;
    events = h.events;
    run = h.run;
    noted_calls = h.noted_calls;
    arrives = h.arrives;
  }
  continue-Traced p mid good s (ok a, t) f h k =
      let later = k a t in
      record {
        reached = later.reached;
        events = h.events ++ later.events;
        run = Run-append (subst (λ q. Run p h.events q) h.arrives h.run) later.run;
        noted_calls =
            later.noted_calls
            ∙ ap (λ l. l ++ later.events) h.noted_calls
            ∙ append_assoc (calls s) h.events later.events;
        arrives = later.arrives;
      }

  -- one call of the client
  pub call-Traced :
      {A : Type 0} (p good : Phase) (event : Answer → Event) (secrets : List Text)
      (call : Exec H.World A) (s : State (recorded H))
      → ((r : Result A) → (q : Phase) × (Step p (event (answer r)) q) × Arrives good r q)
      → Traced p good s (on_client (recorded H) secrets (noted event call) s)
  call-Traced p good event secrets call s allowed =
      let r = (call s.world.0).0 in
      let (q, step, arrives) = allowed r in
      record {
        reached = q;
        events = event (answer r) ∷ [];
        run = next step stay;
        noted_calls = refl;
        arrives = arrives;
      }

  -- where the calls for one virtualserver lead
  abbrev pub survived : {A : Type 0} → Result A → Phase
  survived r = elim (answer r) [ done ↦ listed | refused ↦ listed | broken ↦ ending ]

  pub record Asked (s : State (recorded H)) (x : Result ServerRecord × State (recorded H))
      : Type 0 where
    pub events : List Event
    pub reached : Phase
    pub run : Run listed events reached
    pub noted_calls : calls x.1 ≡ calls s ++ events
    pub survives : reached ≡ survived x.0

  -- The session goes on after the calls for a virtualserver.
  pub resumed :
      {B : Type 0} (s t : State (recorded H)) (r : Result ServerRecord)
      {y : Result B × State (recorded H)}
      → Asked s (r, t)
      → survived r ≡ listed
      → Traced listed listed t y
      → Traced listed listed s y
  resumed s t r h good later = record {
    reached = later.reached;
    events = h.events ++ later.events;
    run = Run-append (subst (λ q. Run listed h.events q) (h.survives ∙ good) h.run) later.run;
    noted_calls =
        later.noted_calls
        ∙ ap (λ l. l ++ later.events) h.noted_calls
        ∙ append_assoc (calls s) h.events later.events;
    arrives = later.arrives;
  }
