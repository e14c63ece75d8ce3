-- ===== src/Wire/Records.antt =====
-- wire.py: `decode_record` on records whose values are escaped.
use mathlib.Core.List.{foldl}
use teamspeak_prometheus.Base.{
  ℕ, Text, ◌≡◌, ◌≢◌, refl, true, false, Option, none, some, List, [], ◌∷◌, ◌++◌, arith, All, ap,
  ◌∙◌, All-append, All-mono, Lacks, is_empty, is_space, lstrip, rstrip, strip, join, map,
  split-join, partition-append, partition-Lacks, list_eq, nat_eq,
}
use teamspeak_prometheus.Base.Dict
use teamspeak_prometheus.Base.Dict.{Dict}
use teamspeak_prometheus.Wire.{escapes, escape, decode_chunk, decode_record}
use teamspeak_prometheus.Wire.RoundTrip.{
  escape-cons, escape_one, letter_of, written, unescape-escape,
}

abbrev pub NoSpace : Text → Type 0
NoSpace = All (λ c. is_space c ≡ false)

rstrip-NoSpace : (s : Text) → NoSpace s → rstrip s ≡ s
unfolding rstrip
rstrip-NoSpace [] h = refl
rstrip-NoSpace (c ∷ s) (p, h) = ground (arith, rstrip-NoSpace s h)

is_empty-append : (s : Text) (d : ℕ) (t : Text) → is_empty (s ++ d ∷ t) ≡ false
is_empty-append [] d t = refl
is_empty-append (c ∷ s) d t = refl

rstrip-append :
    (s : Text) (d : ℕ) (t : Text) → rstrip (d ∷ t) ≡ d ∷ t → rstrip (s ++ d ∷ t) ≡ s ++ d ∷ t
unfolding rstrip
rstrip-append [] d t h = h
rstrip-append (c ∷ s) d t h = rw (rstrip-append s d t h, is_empty-append s d t)

-- a text with no whitespace that is not empty
abbrev pub IsWord : Text → Type 0
IsWord [] = ⊥
IsWord (c ∷ s) = NoSpace (c ∷ s)

rstrip_space : (sep : ℕ) (s : Text) → rstrip s ≡ s → is_empty s ≡ false → rstrip (sep ∷ s) ≡ sep ∷ s
unfolding rstrip
rstrip_space sep s h ne = rw (h, ne)

is_empty-join :
    (sep : ℕ) (word : Text) (words : List Text)
    → IsWord word
    → is_empty (join sep (word ∷ words)) ≡ false
unfolding join
is_empty-join sep [] words h = absurd h
is_empty-join sep (c ∷ s) [] h = refl
is_empty-join sep (c ∷ s) (word ∷ words) h = refl

rstrip-join :
    (sep : ℕ) (word : Text) (words : List Text)
    → IsWord word
    → All IsWord words
    → rstrip (join sep (word ∷ words)) ≡ join sep (word ∷ words)
unfolding join
rstrip-join sep [] words h hs = absurd h
rstrip-join sep (c ∷ s) [] h hs = rstrip-NoSpace (c ∷ s) h
rstrip-join sep (c ∷ s) (word ∷ words) h (g, hs) =
    let last = join sep (word ∷ words) in
    rstrip-append (c ∷ s) sep last
      (rstrip_space sep last (rstrip-join sep word words g hs) (is_empty-join sep word words g))

lstrip-join :
    (sep : ℕ) (word : Text) (words : List Text)
    → IsWord word
    → lstrip (join sep (word ∷ words)) ≡ join sep (word ∷ words)
unfolding join lstrip
lstrip-join sep [] words h = absurd h
lstrip-join sep (c ∷ s) [] h = rw h.0
lstrip-join sep (c ∷ s) (word ∷ words) h = rw h.0

strip-join :
    (sep : ℕ) (word : Text) (words : List Text)
    → IsWord word
    → All IsWord words
    → strip (join sep (word ∷ words)) ≡ join sep (word ∷ words)
unfolding strip
strip-join sep word words h hs = rw (lstrip-join sep word words h) (rstrip-join sep word words h hs)

-- A field as a ServerQuery line writes it.
abbrev pub Field : Type 0
Field = Text × Option Text

unfoldable pub field_text : Field → Text
field_text (key, none) = key
field_text (key, some value) = key ++ b'=' ∷ escape value

-- the whitespace of a value is among what `escape` rewrites
abbrev pub IsPlain : Text → Type 0
IsPlain = All (λ c. is_space c ≡ true → letter_of escapes c ≢ none)

abbrev pub IsKey : Text → Type 0
IsKey key = IsWord key × Lacks b'=' key

abbrev pub IsField : Field → Type 0
IsField (key, none) = IsKey key
IsField (key, some value) = IsKey key × IsPlain value

escape_one-NoSpace :
    (c : ℕ)
    → (is_space c ≡ true → letter_of escapes c ≢ none)
    → NoSpace (written c (letter_of escapes c))
unfolding is_space
escape_one-NoSpace c h = ground (arith, h)

escape-NoSpace : (s : Text) → IsPlain s → NoSpace (escape s)
escape-NoSpace [] h = unfold escape in tt
escape-NoSpace (c ∷ s) (p, h) =
    rw (escape-cons c s, escape_one c)
      (All-append (λ d. is_space d ≡ false) (written c (letter_of escapes c)) (escape s)
        (escape_one-NoSpace c p) (escape-NoSpace s h))

NoSpace-append : (s t : Text) → NoSpace s → NoSpace t → NoSpace (s ++ t)
NoSpace-append = All-append (λ c. is_space c ≡ false)

IsWord-append : (s t : Text) → IsWord s → NoSpace t → IsWord (s ++ t)
IsWord-append [] t h g = absurd h
IsWord-append (c ∷ s) t h g = NoSpace-append (c ∷ s) t h g

equals-NoSpace : is_space b'=' ≡ false
unfolding is_space
equals-NoSpace = refl

field_text-IsWord : (f : Field) → IsField f → IsWord (field_text f)
unfolding field_text
field_text-IsWord (key, none) h = h.0
field_text-IsWord (key, some value) (h, g) =
    IsWord-append key (b'=' ∷ escape value) h.0 (equals-NoSpace, escape-NoSpace value g)

fields-IsWord : (fs : List Field) → All IsField fs → All IsWord (map field_text fs)
fields-IsWord [] h = tt
fields-IsWord (f ∷ fs) (p, h) = (field_text-IsWord f p, fields-IsWord fs h)

space-ne : (c : ℕ) → is_space c ≡ false → c ≢ b' '
unfolding is_space
space-ne c h = ground arith

IsWord-Lacks : (s : Text) → IsWord s → Lacks b' ' s
IsWord-Lacks [] h = absurd h
IsWord-Lacks (c ∷ s) h = All-mono (λ d. is_space d ≡ false) (λ d. d ≢ b' ') (c ∷ s) space-ne h

words-Lacks : (words : List Text) → All IsWord words → All (Lacks b' ') words
words-Lacks words h = All-mono IsWord (Lacks b' ') words IsWord-Lacks h

-- `record[key] = value`
abbrev store_field : Dict Text (Option Text) → Field → Dict Text (Option Text)
store_field d (key, value) = Dict.put d key value

is_empty-IsWord : (s : Text) → IsWord s → is_empty s ≡ false
is_empty-IsWord [] h = absurd h
is_empty-IsWord (c ∷ s) h = refl

decode_chunk-field_text :
    (d : Dict Text (Option Text)) (f : Field)
    → IsField f
    → decode_chunk d (field_text f) ≡ store_field d f
decode_chunk-field_text d (key, none) h =
    unfold decode_chunk field_text in rw (is_empty-IsWord key h.0, partition-Lacks b'=' key h.1)
decode_chunk-field_text d (key, some value) h =
    let shown =
      is_empty-IsWord (field_text (key, some value)) (field_text-IsWord (key, some value) h) in
    unfold decode_chunk field_text in
    rw (shown, partition-append b'=' key (escape value) h.0.1, unescape-escape value)

foldl-decode_chunk :
    (fs : List Field) (d : Dict Text (Option Text))
    → All IsField fs
    → foldl decode_chunk d (map field_text fs) ≡ foldl store_field d fs
foldl-decode_chunk [] d h = refl
foldl-decode_chunk (f ∷ fs) d (p, h) =
    ap (λ e. foldl decode_chunk e (map field_text fs)) (decode_chunk-field_text d f p)
    ∙ foldl-decode_chunk fs (store_field d f) h

-- A record of fields, whose keys are words without `=` and whose values have no whitespace but that
-- which `escape` rewrites, is decoded to the dict of those fields, the last value of a repeated key
-- winning.
pub decode_record-fields :
    (f : Field) (fs : List Field)
    → All IsField (f ∷ fs)
    → decode_record (join b' ' (map field_text (f ∷ fs))) ≡ foldl store_field Dict.empty (f ∷ fs)
decode_record-fields f fs h =
    let words = fields-IsWord (f ∷ fs) h in
    unfold decode_record in
    rw
      (
        strip-join b' ' (field_text f) (map field_text fs) words.0 words.1,
        split-join b' ' (field_text f) (map field_text fs)
            (words-Lacks (map field_text (f ∷ fs)) words),
      )
      (foldl-decode_chunk (f ∷ fs) Dict.empty h)
