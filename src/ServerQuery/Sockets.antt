-- ===== src/ServerQuery/Sockets.antt =====
-- serverquery.py: the sockets that are open before and after what a client is asked.
use teamspeak_prometheus.Base.{
  ℕ, suc, ◌+◌, ◌<◌, ◌≡◌, ◌∙◌, ap, refl, Option, none, some, List, [], ◌∷◌, Text, codes, Bool-cases,
  same, list_eq, nat_eq, arith, inl, inr,
}
use teamspeak_prometheus.Exec.{
  Exception, Result, ok, err, login_failed, server_query_error, os_error, unexpected,
}
use teamspeak_prometheus.Characters.{Characters}
use teamspeak_prometheus.Service.State.{ServerRecord}
use teamspeak_prometheus.ServerQuery.{Socket, Client, read_line}
use teamspeak_prometheus.ServerQuery.Commands.{on_socket, send, run_command}
use teamspeak_prometheus.ServerQuery.Session.{
  of_command, command, answer_of_login, login, listed, serverlist, use_server, serverinfo,
  map_result, first_record, after_quit, close, grow_deadline,
}
use teamspeak_prometheus.ServerQuery.Connection.{
  ignored, greet, new_client, or_raise, greeted, dialled, connect, finish, ts3_client,
}
use teamspeak_prometheus.Service.Keeping.{IsUndisturbed}
use teamspeak_prometheus.Service.Reading.{str}
use teamspeak_prometheus.ServerQuery.Kept.{
  IsKept, Holds, read_line-Kept, send-Kept, run_command-Kept,
}

-- A number of open sockets, of which a dial that succeeds adds one, and `close` takes one, also if it raises.
pub record Counts {W : Type 0} (S : Socket W) (opened : W → ℕ) : Type 0 where
  pub dials :
      (host : Text) (port : ℕ) (w : W)
      → (S.dial host port w).0 ≡ ok tt
      → opened (S.dial host port w).1 ≡ suc (opened w)
  pub fails :
      (host : Text) (port : ℕ) (w : W) (e : Exception)
      → (S.dial host port w).0 ≡ err e
      → opened (S.dial host port w).1 ≡ opened w
  pub closes : (w : W) → 0 < opened w → opened (S.close w).1 + 1 ≡ opened w
  pub sends : (bytes : List ℕ) (w : W) → opened (S.sendall bytes w).1 ≡ opened w
  pub receives : (wait : ℕ) (w : W) → opened (S.recv wait w).1 ≡ opened w
  pub looks : (w : W) → opened (S.clock w).1 ≡ opened w
  pub sleeps : (wait : ℕ) (w : W) → opened (S.sleep wait w).1 ≡ opened w

pub opened-IsKept :
    {W : Type 0} (S : Socket W) (opened : W → ℕ) (n : ℕ)
    → Counts S opened
    → IsKept S (λ w. opened w ≡ n)
opened-IsKept S opened n N = record {
  sends = λ bytes w h. N.sends bytes w ∙ h;
  receives = λ wait w h. N.receives wait w ∙ h;
  looks = λ w h. N.looks w ∙ h;
  sleeps = λ wait w h. N.sleeps wait w ∙ h;
}

module _ {W : Type 0} (S : Socket W) (C : Characters) (decode : List ℕ → Text) where
  module _ (Q : W → Type 0) (K : IsKept S Q) where
    mapped-Kept :
        {A B : Type 0} (f : Result A → Result B) (o : Option (Result A × Client W))
        → Holds S Q K o
        → Holds S Q K (elim o [ none ↦ none | some (r, d) ↦ some (f r, d) ])
    mapped-Kept f none h = tt
    mapped-Kept f (some (r, d)) h = h

    finish-Kept :
        {A : Type 0} (o : Option (Result A × Client W)) (c : Client W)
        → Q c.world
        → Holds S Q K o
        → Q (finish S C decode o c).1.world
    finish-Kept none c h k = h
    finish-Kept (some (r, d)) c h k = k

    command-Kept :
        (name : Text) (params : List (Text × Text)) (c : Client W)
        → Q c.world
        → Holds S Q K (command S C decode name params c)
    unfolding command
    command-Kept name params c h =
        mapped-Kept (of_command S C decode name) (run_command S C decode name params c)
          (run_command-Kept S Q K C decode name params c h)

    login-Kept :
        (username password : Text) (c : Client W)
        → Q c.world
        → Holds S Q K (login S C decode username password c)
    unfolding login
    login-Kept username password c h =
        let params =
          (codes "client_login_name", username) ∷ (codes "client_login_password", password) ∷ [] in
        mapped-Kept (answer_of_login S C decode) (run_command S C decode (codes "login") params c)
          (run_command-Kept S Q K C decode (codes "login") params c h)

    listed-Kept :
        (o : Option (Result (List ServerRecord) × Client W))
        → Holds S Q K o
        → Holds S Q K (elim o [ none ↦ none | some r ↦ some (listed S C decode r) ])
    unfolding grow_deadline
    listed-Kept none h = tt
    listed-Kept (some (ok servers, d)) h = h
    listed-Kept (some (err e, d)) h = h

    pub ts3_client-IsUndisturbed : IsUndisturbed (ts3_client S C decode) (λ c. Q c.world)
    unfolding ts3_client serverlist use_server serverinfo
    ts3_client-IsUndisturbed = record {
      login = λ username password c h.
          finish-Kept (login S C decode username password c) c h (login-Kept username password c h);
      serverlist = λ c h. finish-Kept (serverlist S C decode c) c h (
          listed-Kept (command S C decode (codes "serverlist") [] c)
            (command-Kept (codes "serverlist") [] c h));
      use_server = λ id c h. finish-Kept (use_server S C decode id c) c h (
          mapped-Kept (map_result (λ _. tt))
            (command S C decode (codes "use") ((codes "sid", str id) ∷ []) c)
            (command-Kept (codes "use") ((codes "sid", str id) ∷ []) c h));
      serverinfo = λ c h. finish-Kept (serverinfo S C decode c) c h (
          mapped-Kept (map_result first_record) (command S C decode (codes "serverinfo") [] c)
            (command-Kept (codes "serverinfo") [] c h));
    }

    line_after-Kept :
        (c : Client W) (line : Option (Result (List ℕ) × Client W))
        → read_line S c ≡ line
        → Holds S Q K line
        → Holds S Q K (greet S C decode c)
    unfolding greet
    line_after-Kept c none q h = rw (greet, q) tt
    line_after-Kept c (some (err e, d)) q h = rw (greet, q) h
    line_after-Kept c (some (ok bytes, d)) q h =
        elim (Bool-cases (same (decode bytes) (codes "TS3"))) [
          | inr e ↦ rw (greet, q, e) h
          | inl e ↦
              rw (greet, q, e)
                (mapped-Kept (ignored S C decode) (read_line S d) (read_line-Kept S Q K d h))
        ]

    greet-Kept : (c : Client W) → Q c.world → Holds S Q K (greet S C decode c)
    greet-Kept c h = line_after-Kept c (read_line S c) refl (read_line-Kept S Q K c h)

  after_quit-world :
      (sent : Result (Unit {0})) (r : Result (Unit {0}) × Client W)
      → (after_quit S C decode sent r).1.world ≡ r.1.world
  after_quit-world sent (err e, d) = refl
  after_quit-world (err (os_error k m)) (ok _, d) = refl
  after_quit-world (ok _) (ok _, d) = refl
  after_quit-world (err (login_failed m)) (ok _, d) = refl
  after_quit-world (err (server_query_error m)) (ok _, d) = refl
  after_quit-world (err unexpected) (ok _, d) = refl

  module _ (opened : W → ℕ) (N : Counts S opened) (n : ℕ) where
    closes-opened : (w : W) → opened w ≡ suc n → opened (S.close w).1 ≡ n
    closes-opened w h = omega (arith, N.closes w (omega (arith, h)), h)

    pub close-opened :
        (c : Client W) → opened c.world ≡ suc n → opened (close S C decode c).1.world ≡ n
    unfolding close
    close-opened c h =
        let params : List (Text × Text) = [] in
        let (sent, d) = send S C decode (codes "quit") params c in
        let still =
          send-Kept S (λ w. opened w ≡ suc n) (opened-IsKept S opened (suc n) N) C decode
            (codes "quit") params c h in
        ap opened (after_quit-world sent (on_socket S C decode S.close d))
        ∙ closes-opened d.world still

    -- one socket more after a connection, and as many as before after a failure
    abbrev pub IsBalanced : Result (Unit {0}) × Client W → Type 0
    IsBalanced (ok _, c) = opened c.world ≡ suc n
    IsBalanced (err e, c) = opened c.world ≡ n

    or_raise-IsBalanced :
        (r : Result (Unit {0}) × W) (e : Exception) (c : Client W)
        → opened r.1 ≡ n
        → IsBalanced (or_raise S C decode r e c)
    or_raise-IsBalanced (ok _, w) e c h = h
    or_raise-IsBalanced (err f, w) e c h = h

    greeted-IsBalanced :
        (o : Option (Result (Unit {0}) × Client W)) (c : Client W)
        → opened c.world ≡ n
        → Holds S (λ w. opened w ≡ suc n) (opened-IsKept S opened (suc n) N) o
        → IsBalanced (finish S C decode (greeted S C decode o) c)
    greeted-IsBalanced none c h k = h
    greeted-IsBalanced (some (ok _, d)) c h k = k
    greeted-IsBalanced (some (err e, d)) c h k =
        or_raise-IsBalanced (S.close d.world) e d (closes-opened d.world k)

    dialled-IsBalanced :
        (r : Result (Unit {0}) × W) (c : Client W)
        → opened c.world ≡ n
        → ((r.0 ≡ ok tt → opened r.1 ≡ suc n) × ((e : Exception) → r.0 ≡ err e → opened r.1 ≡ n))
        → IsBalanced (finish S C decode (dialled S C decode r c) c)
    dialled-IsBalanced (err e, w) c h (_, failed) = failed e refl
    dialled-IsBalanced (ok _, w) c h (dialled_one, _) =
        greeted-IsBalanced (greet S C decode (new_client S C decode w)) c h (
          greet-Kept (λ v. opened v ≡ suc n) (opened-IsKept S opened (suc n) N)
            (new_client S C decode w) (N.looks w ∙ dialled_one refl))

    pub connect-IsBalanced :
        (host : Text) (port : ℕ) (c : Client W)
        → opened c.world ≡ n
        → IsBalanced ((ts3_client S C decode).connect host port c)
    unfolding ts3_client connect
    connect-IsBalanced host port c h =
        dialled-IsBalanced (S.dial host port c.world) c h
          (λ e. N.dials host port c.world e ∙ ap suc h, λ x e. N.fails host port c.world x e ∙ h)
