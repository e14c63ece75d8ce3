-- ===== src/Tests/Queries.antt =====
-- ServerQuery commands over a scripted socket.
use teamspeak_prometheus.Base.{
  ℕ, ◌≡◌, refl, Text, codes, All, arith, List, [], ◌∷◌, ◌++◌, some, split, join, starts_with,
  list_eq, nat_eq,
}
use teamspeak_prometheus.Base.Dict
use teamspeak_prometheus.Exec.{Result, ok, err, login_failed}
use teamspeak_prometheus.Characters.{ascii, parse_int}
use teamspeak_prometheus.Wire.{line_terminator, escape, decode_record}
use teamspeak_prometheus.Service.Reading.{get_field}
use teamspeak_prometheus.ServerQuery.{Socket, Client, read_line, show_with}
use teamspeak_prometheus.ServerQuery.Commands.{
  encode, command_line, send, on_socket, run_command, read_response, judge, flood_wait, wait_for,
}
use teamspeak_prometheus.Service.State.{ServerRecord}
use teamspeak_prometheus.ServerQuery.Session.{login, serverlist}
use teamspeak_prometheus.ServerQuery.Budget.{InBudget, serverlist-InBudget}
use teamspeak_prometheus.ServerQuery.Sending.{InLine, is_line_end, send-InLine}
use teamspeak_prometheus.ServerQuery.Answers.{Finishes, run_command-Finishes}

-- the chunks that are still to come, and the waits so far
abbrev Script : Type 0
Script = List Text × List ℕ

abbrev next_chunk : Script → Result (List ℕ) × Script
next_chunk ([], waits) = (ok [], ([], waits))
next_chunk (chunk ∷ chunks, waits) = (ok chunk, (chunks, waits))

abbrev socket : Socket Script
socket = record {
  dial = λ host port w. (ok tt, w);
  sendall = λ bytes w. (ok tt, w);
  recv = λ timeout w. next_chunk w;
  close = λ w. (ok tt, w);
  clock = λ w. (0, w);
  sleep = λ wait w. (ok tt, (w.0, w.1 ++ wait ∷ []));
}

abbrev ascii_of : List ℕ → Text
ascii_of bytes = bytes

abbrev client : List Text → Client Script
client chunks = record {
  world = (chunks, []);
  buffer = [];
  received = 0;
  started = 0;
  deadline = 60000;
}

-- a flood error, then the rejection of the password in two chunks
abbrev flooded : List Text
flooded =
    (codes "error id=524 msg=flood extra_msg=please\\swait\\s2\\sseconds" ++ line_terminator)
    ∷ codes "error id=520 msg=in"
    ∷ (codes "valid" ++ line_terminator)
    ∷ []

abbrev credentials : List (Text × Text)
credentials =
    (codes "client_login_name", codes "u") ∷ (codes "client_login_password", codes "a\nquit") ∷ []

run_command-Finishes_example :
    Finishes socket ascii ascii_of
      (client flooded)
      (run_command socket ascii ascii_of (codes "login") credentials (client flooded))
run_command-Finishes_example =
    run_command-Finishes socket ascii ascii_of (codes "login") credentials (client flooded)

abbrev sent : Text
sent = codes "login client_login_name=u client_login_password=a\\nquit"

encoded : encode (command_line (codes "login") credentials) ≡ some sent
unfolding encode command_line escape join
encoded = refl

keys-InLine : All (λ (key, value). InLine key) credentials
unfolding is_line_end
keys-InLine = ground arith

login-InLine : InLine (codes "login")
unfolding is_line_end
login-InLine = ground arith

send-InLine_example :
    (send socket ascii ascii_of (codes "login") credentials (client flooded)
      ≡ on_socket socket ascii ascii_of (socket.sendall (sent ++ line_terminator)) (client flooded))
    × InLine sent
send-InLine_example =
    send-InLine socket ascii ascii_of (codes "login") credentials (client flooded) sent login-InLine
      keys-InLine encoded

login_test :
    login socket ascii ascii_of (codes "u") (codes "a\nquit") (client flooded)
    ≡ some (
      err (login_failed (codes "login failed: error id=520 invalid")),
      record { world = ([], 2000 ∷ []); buffer = []; received = 85; started = 0; deadline = 60000 },
    )
unfolding login send encode command_line escape join read_response read_line decode_record judge
    flood_wait wait_for parse_int get_field show_with split starts_with Dict.get list_eq nat_eq
login_test = refl

abbrev one_server : List Text
one_server =
    (codes "virtualserver_id=1 virtualserver_status=online" ++ line_terminator)
    ∷ (codes "error id=0 msg=ok" ++ line_terminator)
    ∷ []

serverlist-InBudget_example :
    (r : Result (List ServerRecord) × Client Script) × (serverlist socket ascii ascii_of
        (client one_server)
      ≡ some r)
    × InBudget socket ascii ascii_of (client one_server) r
serverlist-InBudget_example =
    serverlist-InBudget socket ascii ascii_of (client one_server) (omega arith)

abbrev greeting : List Text
greeting =
    (codes "TS3" ++ line_terminator)
    ∷ (codes "Welcome to the TeamSpeak 3 ServerQuery interface" ++ line_terminator)
    ∷ one_server
