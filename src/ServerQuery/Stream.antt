-- ===== src/ServerQuery/Stream.antt =====
-- serverquery.py: what `_read_line` and `_read_response` read of a stream of bytes that comes in chunks.
use teamspeak_prometheus.Base.{
  ℕ, zero, suc, ◌+◌, ◌≡◌, ◌≤◌, ◌<◌, refl, true, false, leb, ltb, Option, some, List, [], ◌∷◌, ◌++◌,
  length, length-append, concat, arith, All, Bool-cases, inl, inr, ap, sym, ◌∙◌, subst,
  append_assoc, append-nil,
}
use teamspeak_prometheus.Exec.{Result, ok}
use teamspeak_prometheus.ServerQuery.Termination.{length-partition_line}
use teamspeak_prometheus.ServerQuery.{
  Socket, Client, partition_line, has_line, accept, receive, read_line_loop, read_line,
  max_session_bytes, max_line_bytes,
}

-- A socket that hands out the chunks of a list, under a clock that stands still.
abbrev next_chunk : List (List ℕ) → Result (List ℕ) × List (List ℕ)
next_chunk [] = (ok [], [])
next_chunk (chunk ∷ chunks) = (ok chunk, chunks)

abbrev pub stream : ℕ → Socket (List (List ℕ))
stream now = record {
  dial = λ host port w. (ok tt, w);
  sendall = λ bytes w. (ok tt, w);
  recv = λ timeout w. next_chunk w;
  close = λ w. (ok tt, w);
  clock = λ w. (now, w);
  sleep = λ wait w. (ok tt, w);
}

-- These bytes are in the buffer of the client or still to come, in chunks that are not empty, before the
-- deadline and within the limit of the session, and are no more in all than a line may have.
pub record Streams (now : ℕ) (bytes : List ℕ) (c : Client (List (List ℕ))) : Type 0 where
  pub joined : c.buffer ++ concat c.world ≡ bytes
  pub filled : All (λ chunk. 0 < length chunk) c.world
  pub early : now < c.deadline
  pub within : c.received + length (concat c.world) ≤ max_session_bytes
  pub short : length bytes ≤ max_line_bytes

has_line-append : (b more : List ℕ) → has_line b ≡ true → has_line (b ++ more) ≡ true
unfolding has_line
has_line-append [] more h = ground arith
has_line-append (c ∷ []) more h = ground arith
has_line-append (c ∷ d ∷ b) more h = ground (arith, has_line-append (d ∷ b) more)

partition_line-append :
    (b more : List ℕ)
    → has_line b ≡ true
    → partition_line (b ++ more) ≡ ((partition_line b).0, (partition_line b).1 ++ more)
unfolding partition_line has_line
partition_line-append [] more h = ground arith
partition_line-append (c ∷ []) more h = ground arith
partition_line-append (c ∷ d ∷ b) more h = ground (arith, partition_line-append (d ∷ b) more)

length-concat :
    (chunks : List (List ℕ))
    → All (λ chunk. 0 < length chunk) chunks
    → length chunks ≤ length (concat chunks)
length-concat [] h = omega arith
length-concat (chunk ∷ chunks) (p, h) =
    omega (arith, length-append chunk (concat chunks), length-concat chunks h)

module _ (now : ℕ) where
  receive-stream :
      (chunk : List ℕ) (chunks : List (List ℕ)) (c : Client (List (List ℕ)))
      → c.world ≡ chunk ∷ chunks
      → 0 < length chunk
      → now < c.deadline
      → length c.buffer ≤ max_line_bytes
      → c.received + length chunk ≤ max_session_bytes
      → receive (stream now) c ≡ (
        ok tt,
        record c {
          world = chunks;
          received = c.received + length chunk;
          buffer = c.buffer ++ chunk;
        },
      )
  unfolding receive accept
  receive-stream [] chunks c e filled early short within = absurd (omega arith)
  receive-stream (x ∷ chunk) chunks c e filled early short within =
      let long : ltb max_line_bytes (length c.buffer) ≡ false = ground (arith, short) in
      let late : leb c.deadline now ≡ false = ground (arith, early) in
      let much : ltb max_session_bytes (c.received + length (x ∷ chunk)) ≡ false =
        ground (arith, within) in
      rw (receive, long, late, e, accept, much) refl

  -- a line is read, and what follows it is still to be read
  abbrev pub Reads : List ℕ → Option (Result (List ℕ) × Client (List (List ℕ))) → Type 0
  Reads bytes o =
      (d : Client (List (List ℕ))) × (o ≡ some (ok (partition_line bytes).0, d))
      × Streams now (partition_line bytes).1 d

  Reads-buffer :
      (bytes : List ℕ) (c : Client (List (List ℕ)))
      → Streams now bytes c
      → has_line c.buffer ≡ true
      → Reads bytes
          (some (ok (partition_line c.buffer).0, record c { buffer = (partition_line c.buffer).1 }))
  Reads-buffer bytes c s h =
      let e : partition_line bytes
          ≡ ((partition_line c.buffer).0, (partition_line c.buffer).1 ++ concat c.world) =
        ap partition_line (sym s.joined) ∙ partition_line-append c.buffer (concat c.world) h in
      let line : has_line bytes ≡ true =
        ap has_line (sym s.joined) ∙ has_line-append c.buffer (concat c.world) h in
      (
        record c { buffer = (partition_line c.buffer).1 },
        rw e refl,
        record {
          joined = sym (ap (λ p. p.1) e);
          filled = s.filled;
          early = s.early;
          within = s.within;
          short = omega (arith, s.short, length-partition_line bytes line);
        },
      )

  -- the client after the next chunk
  abbrev after_chunk : List ℕ → List (List ℕ) → Client (List (List ℕ)) → Client (List (List ℕ))
  after_chunk chunk chunks c = record c {
    world = chunks;
    received = c.received + length chunk;
    buffer = c.buffer ++ chunk;
  }

  receive-Streams :
      (bytes chunk : List ℕ) (chunks : List (List ℕ)) (c : Client (List (List ℕ)))
      → c.world ≡ chunk ∷ chunks
      → Streams now bytes c
      → (receive (stream now) c ≡ (ok tt, after_chunk chunk chunks c))
        × Streams now bytes (after_chunk chunk chunks c)
  receive-Streams bytes chunk chunks c e s =
      let joined : c.buffer ++ (chunk ++ concat chunks) ≡ bytes =
        ap (λ w. c.buffer ++ concat w) (sym e) ∙ s.joined in
      let (filled, rest) = subst (All (λ x. 0 < length x)) e s.filled in
      let total : length bytes ≡ length c.buffer + length (chunk ++ concat chunks) =
        ap length (sym joined) ∙ length-append c.buffer (chunk ++ concat chunks) in
      let left : c.received + length (chunk ++ concat chunks) ≤ max_session_bytes =
        subst (λ w. c.received + length (concat w) ≤ max_session_bytes) e s.within in
      let sum = length-append chunk (concat chunks) in
      (
        receive-stream chunk chunks c e filled s.early (omega (arith, s.short, total))
            (omega (arith, left, sum)),
        record {
          joined = append_assoc c.buffer chunk (concat chunks) ∙ joined;
          filled = rest;
          early = s.early;
          within = omega (arith, left, sum);
          short = s.short;
        },
      )

  read_line_loop-Streams :
      (fuel : ℕ) (bytes : List ℕ) (chunks : List (List ℕ)) (c : Client (List (List ℕ)))
      → length chunks < fuel
      → c.world ≡ chunks
      → Streams now bytes c
      → has_line bytes ≡ true
      → Reads bytes (read_line_loop (stream now) fuel c)
  unfolding read_line_loop
  read_line_loop-Streams zero bytes chunks c h e s line = absurd (omega arith)
  read_line_loop-Streams (suc fuel) bytes [] c h e s line =
      let whole : c.buffer ≡ bytes =
        sym (append-nil c.buffer) ∙ ap (λ w. c.buffer ++ concat w) (sym e) ∙ s.joined in
      let b : has_line c.buffer ≡ true = ap has_line whole ∙ line in
      rw (read_line_loop, b) (Reads-buffer bytes c s b)
  read_line_loop-Streams (suc fuel) bytes (chunk ∷ chunks) c h e s line =
      elim (Bool-cases (has_line c.buffer)) [
        | inl b ↦ rw (read_line_loop, b) (Reads-buffer bytes c s b)
        | inr b ↦
            let (q, t) = receive-Streams bytes chunk chunks c e s in
            rw (read_line_loop, b, ap (λ r. r.0) q, ap (λ r. r.1) q)
              (read_line_loop-Streams fuel bytes chunks (after_chunk chunk chunks c) (omega arith)
                refl t line)
      ]

  -- Reading a line does not depend on how the bytes come: if the bytes in the buffer and those that
  -- come, before the deadline, within the limit of the session, no more in all than a line may have and
  -- in chunks of any sizes but 0, have a line in them, the read ends with the first line and leaves the
  -- client with the bytes after it to read.
  pub read_line-Streams :
      (bytes : List ℕ) (c : Client (List (List ℕ)))
      → Streams now bytes c
      → has_line bytes ≡ true
      → Reads bytes (read_line (stream now) c)
  unfolding read_line
  read_line-Streams bytes c s line =
      read_line_loop-Streams (max_session_bytes + 2) bytes c.world c
        (omega (arith, length-concat c.world s.filled, s.within)) refl s line
