-- ===== src/Wire/Framing.antt =====
-- wire.py: the result of `escape`, against the characters that frame a response.
use teamspeak_prometheus.Base.{
  ℕ, Text, ◌≡◌, Bool, false, [], ◌∷◌, ◌&&◌, ◌||◌, ◌==◌, leb, arith, All, All-append, Lacks,
  All-mono, ◌≢◌,
}
use teamspeak_prometheus.Wire.{escapes, escape}
use teamspeak_prometheus.Wire.RoundTrip.{escape-cons, escape_one, letter_of, written}

-- The characters that separate values, records and lines: a space, a pipe, and what C calls
-- `\a \b \t \n \v \f \r`.
unfoldable pub is_framing : ℕ → Bool
is_framing c = c == b' ' || c == b'|' || (leb 7 c && leb c 13)

written-is_framing : (c : ℕ) → All (λ d. is_framing d ≡ false) (written c (letter_of escapes c))
unfolding is_framing
written-is_framing c = ground arith

escape_one-is_framing : (c : ℕ) → All (λ d. is_framing d ≡ false) (escape (c ∷ []))
escape_one-is_framing c = rw escape_one (written-is_framing c)

-- Whatever the text, its escaped form holds no character that separates values, records or lines.
pub escape-is_framing : (s : Text) → All (λ d. is_framing d ≡ false) (escape s)
escape-is_framing [] = unfold escape in tt
escape-is_framing (c ∷ s) = rw (escape-cons c s) (
    All-append (λ d. is_framing d ≡ false) (escape (c ∷ [])) (escape s) (escape_one-is_framing c)
      (escape-is_framing s))

-- an escaped text lacks each framing character
pub escape-Lacks : (sep : ℕ) (s : Text) → is_framing sep ≢ false → Lacks sep (escape s)
escape-Lacks sep s h =
    All-mono (λ d. is_framing d ≡ false) (λ d. d ≢ sep) (escape s) (λ d p e. h (rw (← e) p))
      (escape-is_framing s)
