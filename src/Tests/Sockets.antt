-- ===== src/Tests/Sockets.antt =====
-- A poll over a socket that counts its connections.
use teamspeak_prometheus.Base.{ℕ, suc, ◌-◌, ◌≡◌, refl, Text, codes, arith, List, [], ◌∷◌, ◌++◌}
use teamspeak_prometheus.Exec.{Result, ok, err, os_error, timeout}
use teamspeak_prometheus.Characters.{ascii}
use teamspeak_prometheus.Wire.{line_terminator}
use teamspeak_prometheus.Service.State.{Host, State}
use teamspeak_prometheus.Service.Polling.{poll}
use teamspeak_prometheus.Service.Outcome.{IsService}
use teamspeak_prometheus.Service.Running.{new_service, new_service-IsService}
use teamspeak_prometheus.ServerQuery.{Socket, Client}
use teamspeak_prometheus.ServerQuery.Sockets.{Counts}
use teamspeak_prometheus.ServerQuery.Polled.{socket_host, poll-opened}
use teamspeak_prometheus.Tests.Fixture.{whole_numbers, memory, config, times, memory-IsLawful}

-- the chunks that are still to come, and the connections that are open
abbrev Wires : Type 0
Wires = List Text × ℕ

abbrev next_chunk : Wires → Result (List ℕ) × Wires
next_chunk ([], n) = (err (os_error timeout (codes "timed out")), ([], n))
next_chunk (chunk ∷ chunks, n) = (ok chunk, (chunks, n))

abbrev wire : Socket Wires
wire = record {
  dial = λ host port w. (ok tt, (w.0, suc w.1));
  sendall = λ bytes w. (ok tt, w);
  recv = λ wait w. next_chunk w;
  close = λ w. (ok tt, (w.0, w.1 - 1));
  clock = λ w. (0, w);
  sleep = λ wait w. (ok tt, w);
}

next_chunk-open : (w : Wires) → (next_chunk w).1.1 ≡ w.1
next_chunk-open ([], n) = refl
next_chunk-open (chunk ∷ chunks, n) = refl

wire-Counts : Counts wire (λ w. w.1)
wire-Counts = record {
  dials = λ host port w e. refl;
  fails = λ host port w x e. absurd (ground arith);
  closes = λ w h. omega arith;
  sends = λ bytes w. refl;
  receives = λ wait w. next_chunk-open w;
  looks = λ w. refl;
  sleeps = λ wait w. refl;
}

abbrev bytes_as_text : List ℕ → Text
bytes_as_text bytes = bytes

abbrev wire_host : Host
wire_host = socket_host whole_numbers memory wire ascii bytes_as_text

-- Two connections of others are open, and the server greets and then falls silent.
abbrev silent : Client Wires
silent = record {
  world = ((codes "TS3" ++ line_terminator) ∷ (codes "Welcome" ++ line_terminator) ∷ [], 2);
  buffer = [];
  received = 0;
  started = 0;
  deadline = 0;
}

abbrev started : State wire_host
started = new_service wire_host silent (record {
  last_poll_timestamp = 0;
  last_successful_poll_timestamp = 0;
  poll_success = 0;
  poll_duration = 0;
  poll_errors = [];
  missing_fields = [];
})

started-IsService : IsService wire_host memory-IsLawful config [] started
unfolding new_service
started-IsService =
    new_service-IsService wire_host memory-IsLawful config [] silent (started.exporter)

poll-opened_example : (poll wire_host config [] (times 3) started).1.world.world.1 ≡ 2
unfolding new_service
poll-opened_example =
    poll-opened whole_numbers memory memory-IsLawful wire ascii bytes_as_text config [] (λ w. w.1)
      wire-Counts (times 3) started started-IsService.has_all
