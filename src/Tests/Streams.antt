-- ===== src/Tests/Streams.antt =====
-- Lines and responses that come in chunks, and the operations of the client on the scripted socket.
use teamspeak_prometheus.Base.{
  ℕ, ◌≡◌, refl, true, Text, codes, All, arith, List, [], ◌∷◌, ◌++◌, starts_with, list_eq, nat_eq,
}
use teamspeak_prometheus.Characters.{ascii}
use teamspeak_prometheus.Wire.{line_terminator}
use teamspeak_prometheus.ServerQuery.{Client, has_line}
use teamspeak_prometheus.ServerQuery.Commands.{read_response}
use teamspeak_prometheus.ServerQuery.Stream.{stream, Streams}
use teamspeak_prometheus.ServerQuery.Response.{
  transmitted, records_of, Before, Trailer, Answers, read_response-Answers,
}

-- a notification between the two records of a line and the trailer
abbrev lines : List (List ℕ)
lines = codes "clid=1|clid=2" ∷ codes "notifyx a=1" ∷ []

abbrev trailer : List ℕ
trailer = codes "error id=0 msg=ok"

abbrev after : List ℕ
after = codes "notify"

-- the chunks end inside of a terminator
abbrev receiving : Client (List (List ℕ))
receiving = record {
  world =
      (codes "id=2" ++ 10 ∷ [])
      ∷ (13 ∷ codes "notifyx a=1" ++ (line_terminator ++ codes "err"))
      ∷ (codes "or id=0 msg=ok" ++ (line_terminator ++ codes "not"))
      ∷ codes "ify"
      ∷ [];
  buffer = codes "clid=1|cl";
  received = 9;
  started = 0;
  deadline = 60000;
}

abbrev ascii_of : List ℕ → Text
ascii_of bytes = bytes

receiving-Streams : Streams 0 (transmitted lines (trailer ++ (line_terminator ++ after))) receiving
receiving-Streams = record {
  joined = refl;
  filled = ground arith;
  early = omega arith;
  within = omega arith;
  short = omega arith;
}

some_line : has_line (transmitted lines (trailer ++ (line_terminator ++ after))) ≡ true
unfolding has_line
some_line = refl

lines-Before : All (Before ascii_of) lines
unfolding has_line starts_with
lines-Before = ((refl, refl), ((refl, refl), tt))

trailer-Trailer : Trailer ascii_of trailer
unfolding has_line starts_with
trailer-Trailer = (refl, refl)

read_response-Answers_example :
    Answers ascii_of 0 trailer after
      (records_of ascii_of lines)
      (read_response (stream 0) ascii ascii_of receiving)
read_response-Answers_example =
    read_response-Answers ascii_of 0 trailer after ascii lines receiving lines-Before
      trailer-Trailer receiving-Streams
