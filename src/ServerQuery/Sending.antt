-- ===== src/ServerQuery/Sending.antt =====
-- serverquery.py: the bytes that `_send` writes.
use teamspeak_prometheus.Base.{
  ℕ, ◌≡◌, refl, Bool, false, ◌||◌, ◌==◌, Option, none, some, List, [], ◌∷◌, ◌++◌, map, Text, join,
  arith, All, All-append, All-mono, subst,
}
use teamspeak_prometheus.Characters.{Characters}
use teamspeak_prometheus.Wire.{escape, line_terminator}
use teamspeak_prometheus.Wire.Framing.{is_framing, escape-is_framing}
use teamspeak_prometheus.ServerQuery.{Socket, Client}
use teamspeak_prometheus.ServerQuery.Commands.{
  encode_one, both, encode, command_line, parameter, send, on_socket,
}

-- one of the two bytes of a line terminator
unfoldable pub is_line_end : ℕ → Bool
is_line_end c = c == 10 || c == 13

abbrev pub InLine : Text → Type 0
InLine = All (λ c. is_line_end c ≡ false)

-- what is encoded, if anything, has no byte of a line terminator
abbrev IsLine : Option (List ℕ) → Type 0
IsLine none = Unit
IsLine (some bytes) = InLine bytes

encode_one-IsLine : (c : ℕ) → is_line_end c ≡ false → IsLine (encode_one c)
unfolding is_line_end encode_one
encode_one-IsLine c h = ground arith

both-IsLine : (a b : Option (List ℕ)) → IsLine a → IsLine b → IsLine (both a b)
both-IsLine (some a) (some b) h k = All-append (λ c. is_line_end c ≡ false) a b h k
both-IsLine (some a) none h k = tt
both-IsLine none b h k = tt

encode-IsLine : (text : Text) → InLine text → IsLine (encode text)
unfolding encode
encode-IsLine [] h = tt
encode-IsLine (c ∷ text) (p, h) =
    both-IsLine (encode_one c) (encode text) (encode_one-IsLine c p) (encode-IsLine text h)

IsLine-some : (o : Option (List ℕ)) (bytes : List ℕ) → IsLine o → o ≡ some bytes → InLine bytes
IsLine-some none bytes h e = cc
IsLine-some (some b) bytes h e = subst IsLine e h

not_line_end : (c : ℕ) → is_framing c ≡ false → is_line_end c ≡ false
unfolding is_framing is_line_end
not_line_end c h = ground arith

escape-InLine : (s : Text) → InLine (escape s)
escape-InLine s =
    All-mono (λ c. is_framing c ≡ false) (λ c. is_line_end c ≡ false) (escape s) not_line_end
      (escape-is_framing s)

join-InLine :
    (part : Text) (parts : List Text)
    → InLine part
    → All InLine parts
    → InLine (join b' ' (part ∷ parts))
unfolding join is_line_end
join-InLine part [] h hs = h
join-InLine part (next ∷ parts) h (n, hs) =
    All-append (λ c. is_line_end c ≡ false) part (b' ' ∷ join b' ' (next ∷ parts)) h
      (refl, join-InLine next parts n hs)

parameters-InLine :
    (params : List (Text × Text))
    → All (λ (key, value). InLine key) params
    → All InLine (map parameter params)
unfolding is_line_end
parameters-InLine [] h = tt
parameters-InLine ((key, value) ∷ params) (k, h) = (
  All-append (λ c. is_line_end c ≡ false) key (b'=' ∷ escape value) k (refl, escape-InLine value),
  parameters-InLine params h,
)

module _ {W : Type 0} (S : Socket W) (C : Characters) (decode : List ℕ → Text) where
  -- If neither the command nor a key holds a line feed or a carriage return, the one write of a command
  -- that can be encoded ends with the line terminator and has no other byte of one, whatever the values
  -- hold.
  pub send-InLine :
      (command : Text) (params : List (Text × Text)) (c : Client W) (bytes : List ℕ)
      → InLine command
      → All (λ (key, value). InLine key) params
      → encode (command_line command params) ≡ some bytes
      → (send S C decode command params c
          ≡ on_socket S C decode (S.sendall (bytes ++ line_terminator)) c)
        × InLine bytes
  unfolding send
  send-InLine command params c bytes h hs e = (
    rw (send, e) refl,
    IsLine-some (encode (command_line command params)) bytes
        (encode-IsLine (command_line command params) (
          unfold command_line in
          join-InLine command (map parameter params) h (parameters-InLine params hs)))
        e,
  )
