-- ===== src/ServerQuery/Termination.antt =====
-- serverquery.py: how long the loops of `ServerQueryClient` run.
use teamspeak_prometheus.Base.{
  ℕ, zero, suc, ◌+◌, ◌-◌, ◌≡◌, ◌≤◌, ◌<◌, ◌⊎◌, refl, true, false, leb, ltb, some, List, [], ◌∷◌,
  ◌++◌, Text, codes, starts_with, drop, length, length-append, arith, Bool-cases, inl, inr, min,
  max, ap, sym, ◌∙◌, split, map, list_eq, nat_eq,
}
use teamspeak_prometheus.Exec.{Exception, Result, ok, err}
use teamspeak_prometheus.Characters.{Characters}
use teamspeak_prometheus.Wire.{decode_record}
use teamspeak_prometheus.Service.State.{ServerRecord}
use teamspeak_prometheus.ServerQuery.{
  Socket, Client, partition_line, has_line, accept, received_from, receive, read_line_loop,
  read_line, max_session_bytes, max_line_bytes, read_timeout,
}
use teamspeak_prometheus.ServerQuery.Commands.{response_loop, read_response}

pub length-partition_line :
    (b : List ℕ) → has_line b ≡ true → length (partition_line b).1 + 2 ≤ length b
unfolding has_line partition_line
length-partition_line [] h = absurd (ground arith)
length-partition_line (c ∷ []) h = absurd (ground arith)
length-partition_line (c ∷ d ∷ rest) h = ground (arith, length-partition_line (d ∷ rest))

module _ {W : Type 0} where
  -- the bytes that may still come, and those that wait in the buffer
  abbrev pub potential : Client W → ℕ
  potential c = (max_session_bytes - c.received) + length c.buffer

  -- It is the session of before: no more bytes were received than before or than a session may, and the
  -- start and the deadline are the same.
  abbrev pub Carries : Client W → Client W → Type 0
  Carries c d =
      (d.received ≤ max c.received max_session_bytes)
      × (d.started ≡ c.started)
      × (d.deadline ≡ c.deadline)

  -- what a successful read of a chunk does
  pub record Grown (c d : Client W) : Type 0 where
    pub bounded : d.received ≤ max_session_bytes
    pub more : c.received < d.received
    pub same_potential : potential d ≡ potential c
    pub carries : Carries c d

  -- what is left after a line, or nothing if it raised
  abbrev pub Shrunk : ℕ → Client W → {A : Type 0} → Result A × Client W → Type 0
  Shrunk n c (ok a, d) = (potential d + n ≤ potential c) × Carries c d
  Shrunk n c (err e, d) = Unit

pub result-cases : (r : Result (Unit {0})) → (r ≡ ok tt) ⊎ ((e : Exception) × (r ≡ err e))
result-cases (ok _) = inl refl
result-cases (err e) = inr (e, refl)

pub Carries-trans : {W : Type 0} (c d e : Client W) → Carries c d → Carries d e → Carries c e
Carries-trans c d e (m, s, t) (n, u, v) = (omega (arith, m, n), u ∙ s, v ∙ t)

Shrunk-of_Grown :
    {W A : Type 0} (c d : Client W) (r : Result A × Client W)
    → Grown c d
    → Shrunk 2 d r
    → Shrunk 2 c r
Shrunk-of_Grown c d (ok a, e) grown (less, same) =
    (omega (arith, grown.same_potential, less), Carries-trans c d e grown.carries same)
Shrunk-of_Grown c d (err x, e) grown less = tt

Shrunk-le :
    {W A : Type 0} (c d : Client W) (r : Result A × Client W)
    → potential c ≤ potential d
    → Carries d c
    → Shrunk 0 c r
    → Shrunk 0 d r
Shrunk-le c d (ok a, e) le times (less, same) =
    (omega (arith, le, less), Carries-trans d c e times same)
Shrunk-le c d (err x, e) le times less = tt

module _ {W : Type 0} (S : Socket W) where
  accept_lem :
      (chunk : List ℕ) (c : Client W) → (accept S chunk c).0 ≡ ok tt → Grown c (accept S chunk c).1
  unfolding accept
  accept_lem [] c h = absurd (ground arith)
  accept_lem (b ∷ chunk) c h =
      elim (Bool-cases (ltb max_session_bytes (c.received + length (b ∷ chunk)))) [
        | inl e ↦ absurd (ground (arith, e, h))
        | inr e ↦
            let within : c.received + length (b ∷ chunk) ≤ max_session_bytes = ground (arith, e) in
            rw e (record {
              bounded = within;
              more = omega arith;
              same_potential = ground (arith, e, length-append c.buffer (b ∷ chunk));
              carries = (omega (arith, within), refl, refl);
            })
      ]

  received_from_lem :
      (r : Result (List ℕ) × W) (c : Client W)
      → (received_from S r c).0 ≡ ok tt
      → Grown c (received_from S r c).1
  received_from_lem (ok chunk, w) c h =
      let grown = accept_lem chunk (record c { world = w }) h in
      record {
        bounded = grown.bounded;
        more = grown.more;
        same_potential = grown.same_potential;
        carries = grown.carries;
      }
  received_from_lem (err e, w) c h = absurd (ground arith)

  -- the client when the clock was read, and what the socket then gives
  abbrev at_clock : Client W → Client W
  at_clock c = record c { world = (S.clock c.world).1 }

  abbrev chunk_of : Client W → Result (List ℕ) × W
  chunk_of c = S.recv (min (c.deadline - (S.clock c.world).0) read_timeout) (S.clock c.world).1

  receive-eq :
      (c : Client W)
      → ltb max_line_bytes (length c.buffer) ≡ false
      → leb c.deadline (S.clock c.world).0 ≡ false
      → receive S c ≡ received_from S (chunk_of c) (at_clock c)
  unfolding receive
  receive-eq c e f = rw (e, f) refl

  receive_lem : (c : Client W) → (receive S c).0 ≡ ok tt → Grown c (receive S c).1
  receive_lem c h = elim (Bool-cases (ltb max_line_bytes (length c.buffer))) [
    | inl e ↦ absurd (unfold receive in ground (arith, e, h))
    | inr e ↦ elim (Bool-cases (leb c.deadline (S.clock c.world).0)) [
      | inl f ↦ absurd (unfold receive in ground (arith, e, f, h))
      | inr f ↦
          let q = receive-eq c e f in
          let grown = received_from_lem (chunk_of c) (at_clock c) (sym (ap (λ r. r.0) q) ∙ h) in
          rw q (record {
            bounded = grown.bounded;
            more = grown.more;
            same_potential = grown.same_potential;
            carries = grown.carries;
          })
    ]
  ]

  read_line_loop_lem :
      (fuel : ℕ) (c : Client W)
      → max_session_bytes - c.received < fuel
      → (r : Result (List ℕ) × Client W) × (read_line_loop S fuel c ≡ some r) × Shrunk 2 c r
  unfolding read_line_loop
  read_line_loop_lem zero c h = absurd (omega arith)
  read_line_loop_lem (suc fuel) c h = elim (Bool-cases (has_line c.buffer)) [
    | inl e ↦ (
      (ok (partition_line c.buffer).0, record c { buffer = (partition_line c.buffer).1 }),
      rw (read_line_loop, e) refl,
      (omega (arith, length-partition_line c.buffer e), (omega arith, refl, refl)),
    )
    | inr e ↦ elim (result-cases (receive S c).0) [
      | inr (x, f) ↦ ((err x, (receive S c).1), rw (read_line_loop, e, f) refl, tt)
      | inl f ↦
          let grown = receive_lem c f in
          let (r, q, shrunk) =
            read_line_loop_lem fuel (receive S c).1 (omega (arith, grown.more, grown.bounded)) in
          (r, rw (read_line_loop, e, f) q, Shrunk-of_Grown c (receive S c).1 r grown shrunk)
    ]
  ]

  pub read_line_lem :
      (c : Client W) → (r : Result (List ℕ) × Client W) × (read_line S c ≡ some r) × Shrunk 2 c r
  unfolding read_line
  read_line_lem c = read_line_loop_lem (max_session_bytes + 2) c (omega arith)

  -- reading a response ends, with no more to come than before
  abbrev Ends :
      (Characters) → (List ℕ → Text) → ℕ → List ServerRecord → Client W → Client W → Type 0
  Ends C decode fuel so_far c start =
      (r : Result (List ServerRecord × ServerRecord) × Client W) × (response_loop S C decode fuel
          so_far c
        ≡ some r)
      × Shrunk 0 start r

  response_after_line :
      (C : Characters) (decode : List ℕ → Text) (fuel : ℕ) (so_far : List ServerRecord)
      (c : Client W) (line : Result (List ℕ) × Client W)
      → ((more : List ServerRecord) (d : Client W)
          → potential d + 2 ≤ potential c
          → Carries c d
          → Ends C decode fuel more d c)
      → read_line S c ≡ some line
      → Shrunk 2 c line
      → Ends C decode (suc fuel) so_far c c
  unfolding response_loop
  response_after_line C decode fuel so_far c (err e, d) again q shrunk =
      ((err e, d), rw (response_loop, q) refl, tt)
  response_after_line C decode fuel so_far c (ok bytes, d) again q (less, same) =
      elim (Bool-cases (starts_with (codes "error ") (decode bytes))) [
        | inl e ↦ (
          (ok (so_far, decode_record (drop 6 (decode bytes))), d),
          rw (response_loop, q, e) refl,
          (omega arith, same),
        )
        | inr e ↦ elim (Bool-cases (starts_with (codes "notify") (decode bytes))) [
          | inl f ↦
              let (r, p, shrunk) = again so_far d less same in
              (r, rw (response_loop, q, e, f) p, shrunk)
          | inr f ↦
              let more = so_far ++ map decode_record (split b'|' (decode bytes)) in
              let (r, p, shrunk) = again more d less same in
              (r, rw (response_loop, q, e, f) p, shrunk)
        ]
      ]

  response_loop_lem :
      (C : Characters) (decode : List ℕ → Text) (fuel : ℕ) (so_far : List ServerRecord)
      (c start : Client W)
      → potential c < fuel
      → potential c ≤ potential start
      → Carries start c
      → Ends C decode fuel so_far c start
  response_loop_lem C decode zero so_far c start h le times = absurd (omega arith)
  response_loop_lem C decode (suc fuel) so_far c start h le times =
      let (line, q, shrunk) = read_line_lem c in
      let (r, p, less) =
        response_after_line C decode fuel so_far c line
          (λ more d l same.
            response_loop_lem C decode fuel more d c (omega (arith, l, h)) (omega (arith, l)) same)
          q shrunk in
      (r, p, Shrunk-le c start r le times less)

  pub read_response_lem :
      (C : Characters) (decode : List ℕ → Text) (c : Client W)
      → (r : Result (List ServerRecord × ServerRecord) × Client W) × (read_response S C decode c
          ≡ some r)
        × Shrunk 0 c r
  unfolding read_response
  read_response_lem C decode c =
      response_loop_lem C decode (max_session_bytes + length c.buffer + 1) [] c c (omega arith)
        (omega arith) (omega arith, refl, refl)
