-- ===== src/Wire/RoundTrip.antt =====
-- wire.py: `unescape` after `escape`.
use teamspeak_prometheus.Base.{
  ℕ, Text, ◌≡◌, ◌≢◌, refl, Option, none, some, List, [], ◌∷◌, ◌++◌, ◌==◌, if◌then◌else◌, arith,
  replace, replace-append,
}
use teamspeak_prometheus.Wire.{backslash, escapes, escape_with, escape, unescape_letter, unescape}

escape_with-append :
    (table : List (ℕ × ℕ)) (s t : Text)
    → escape_with table (s ++ t) ≡ escape_with table s ++ escape_with table t
unfolding escape_with
escape_with-append [] s t = refl
escape_with-append ((raw, letter) ∷ table) s t =
    let new = backslash ∷ letter ∷ [] in
    ground (
      arith,
      replace-append raw new s t,
      escape_with-append table (replace raw new s) (replace raw new t),
    )

pub escape-append : (s t : Text) → escape (s ++ t) ≡ escape s ++ escape t
unfolding escape
escape-append s t = escape_with-append escapes s t

-- the first character is escaped apart from the rest
pub escape-cons : (c : ℕ) (s : Text) → escape (c ∷ s) ≡ escape (c ∷ []) ++ escape s
escape-cons c s = escape-append (c ∷ []) s

-- the letter that stands for a raw character
abbrev pub letter_of : List (ℕ × ℕ) → ℕ → Option ℕ
letter_of [] c = none
letter_of ((raw, letter) ∷ table) c = if c == raw then some letter else letter_of table c

abbrev pub written : ℕ → Option ℕ → Text
written c none = c ∷ []
written c (some letter) = backslash ∷ letter ∷ []

-- no later replacement of the table touches what an earlier one wrote
abbrev IsSettled : List (ℕ × ℕ) → Type 0
IsSettled [] = Unit
IsSettled ((_, letter) ∷ table) =
    (escape_with table (backslash ∷ letter ∷ []) ≡ backslash ∷ letter ∷ []) × IsSettled table

escapes-IsSettled : IsSettled escapes
unfolding escape_with replace
escapes-IsSettled =
    (refl, (refl, (refl, (refl, (refl, (refl, (refl, (refl, (refl, (refl, (refl, tt)))))))))))

escape_with_one :
    (table : List (ℕ × ℕ)) (c : ℕ)
    → IsSettled table
    → escape_with table (c ∷ []) ≡ written c (letter_of table c)
unfolding escape_with replace
escape_with_one [] c h = refl
escape_with_one ((raw, letter) ∷ table) c (now, later) =
    ground (arith, escape_with_one table c later)

pub escape_one : (c : ℕ) → escape (c ∷ []) ≡ written c (letter_of escapes c)
unfolding escape
escape_one c = escape_with_one escapes c escapes-IsSettled

unescape-ne_backslash : (c : ℕ) (s : Text) → c ≢ backslash → unescape (c ∷ s) ≡ c ∷ unescape s
unfolding unescape
unescape-ne_backslash c [] h = refl
unescape-ne_backslash c (d ∷ s) h = ground arith

unescape-written :
    (c : ℕ) (s : Text) → unescape (written c (letter_of escapes c) ++ s) ≡ c ∷ unescape s
unfolding unescape unescape_letter
unescape-written c s = ground (arith, unescape-ne_backslash c s)

unescape-escape_one : (c : ℕ) (s : Text) → unescape (escape (c ∷ []) ++ s) ≡ c ∷ unescape s
unescape-escape_one c s = rw escape_one (unescape-written c s)

-- Unescaping the escaped form of any text gives the text.
pub unescape-escape : (s : Text) → unescape (escape s) ≡ s
unescape-escape [] = unfold escape unescape in refl
unescape-escape (c ∷ s) =
    ground (arith, escape-cons c s, unescape-escape_one c (escape s), unescape-escape s)
