-- ===== src/Changelog/Lines.antt =====
-- .github/scripts/changelog_section.py: the methods of `str` and the regular expressions that it uses.
use teamspeak_prometheus.Base.{
  ℕ, ◌≡◌, refl, Bool, true, false, not, ◌&&◌, ◌||◌, ◌==◌, leb, ltb, if◌then◌else◌, Option, none,
  some, List, [], ◌∷◌, ◌++◌, Text, codes, is_empty, list_eq, nat_eq,
}
use mathlib.Core.Option

-- the characters that end a line for `splitlines`
unfoldable pub ends_line : ℕ → Bool
ends_line c =
    (leb 10 c && leb c 13) || (leb 28 c && leb c 30) || c == 0x85 || c == 0x2028 || c == 0x2029

-- the lines of a text, with the characters of the line that is read so far, if it has begun; a line feed
-- after a carriage return ends no line of its own
unfoldable pub lines_from : Bool → Option Text → Text → List Text
unfolding ends_line
lines_from after_return none [] = []
lines_from after_return (some line) [] = line ∷ []
lines_from after_return none (c ∷ text) =
    let skipped = lines_from false none text in
    let next = lines_from (c == 13) none text in
    let more = lines_from false (some (c ∷ [])) text in
    if c == 10 && after_return then skipped else if ends_line c then [] ∷ next else more
lines_from after_return (some line) (c ∷ text) =
    let next = lines_from (c == 13) none text in
    let more = lines_from false (some (line ++ c ∷ [])) text in
    if ends_line c then line ∷ next else more

-- `text.splitlines()`
unfoldable pub splitlines : Text → List Text
unfolding lines_from
splitlines text = lines_from false none text

-- `text.strip('\n')`
unfoldable pub lstrip_breaks : Text → Text
lstrip_breaks [] = []
lstrip_breaks (c ∷ text) = let rest = lstrip_breaks text in if c == 10 then rest else c ∷ text

unfoldable pub rstrip_breaks : Text → Text
rstrip_breaks [] = []
rstrip_breaks (c ∷ text) =
    let rest = rstrip_breaks text in if is_empty rest && c == 10 then [] else c ∷ rest

unfoldable pub strip_breaks : Text → Text
unfolding lstrip_breaks rstrip_breaks
strip_breaks text = rstrip_breaks (lstrip_breaks text)

-- `version.removeprefix('v')`
abbrev pub without_v : Text → Text
without_v [] = []
without_v (c ∷ version) = if c == b'v' then version else c ∷ version

-- the characters before the first `]`, if there is one
unfoldable pub before_bracket : Text → Option Text
before_bracket [] = none
before_bracket (c ∷ text) =
    let rest = before_bracket text in
    if c == b']' then some [] else Option.map (λ name. c ∷ name) rest

abbrev filled : Option Text → Option Text
filled none = none
filled (some []) = none
filled (some (c ∷ name)) = some (c ∷ name)

-- the name that `VERSION.match` finds
unfoldable pub match_version : Text → Option Text
unfolding before_bracket
match_version [] = none
match_version (c ∷ text) = if c == b'[' then filled (before_bracket text) else none

-- the label up to `]:`, in which a backslash takes the next character with it
unfoldable pub label_from : Text → Option Text
label_from [] = none
label_from (c ∷ []) = none
label_from (c ∷ d ∷ text) =
    let escaped = label_from text in
    let plain = label_from (d ∷ text) in
    if c == b'\\'
    then Option.map (λ label. c ∷ d ∷ label) escaped
    else if c == b']'
    then if d == b':' then some [] else none
    else Option.map (λ label. c ∷ label) plain

-- the label that `RAW_LABEL.match` finds
unfoldable pub match_label : Text → Option Text
unfolding label_from
match_label [] = none
match_label (c ∷ text) =
    let rest = match_label text in
    if c == b'['
    then filled (label_from text)
    else if c == b' ' || c == 9 || c == b'>'
    then rest
    else none

-- `sorted` with an order, in which equal ones keep theirs
module _ {ℓ} {A : Type ℓ} (le : A → A → Bool) where
  unfoldable pub insert_sorted : A → List A → List A
  insert_sorted a [] = a ∷ []
  insert_sorted a (b ∷ sorted) = if le a b then a ∷ b ∷ sorted else b ∷ insert_sorted a sorted

  unfoldable pub sort_with : List A → List A
  unfolding insert_sorted
  sort_with [] = []
  sort_with (a ∷ l) = insert_sorted a (sort_with l)

-- `<` and `<=` of two texts
unfoldable pub text_lt : Text → Text → Bool
text_lt s [] = false
text_lt [] (d ∷ t) = true
text_lt (c ∷ s) (d ∷ t) = let rest = text_lt s t in ltb c d || (c == d && rest)

abbrev pub text_le : Text → Text → Bool
text_le s t = not (text_lt t s)

lines_test :
    splitlines (codes "a" ++ 10 ∷ 10 ∷ codes "b" ++ 13 ∷ 10 ∷ codes "c" ++ 10 ∷ [])
    ≡ codes "a" ∷ [] ∷ codes "b" ∷ codes "c" ∷ []
unfolding splitlines
lines_test = refl

label_test : match_label (codes "> [a\\]b]: /x") ≡ some (codes "a\\]b")
unfolding match_label
label_test = refl

version_test : match_version (codes "[1.0.0] - 2026-09-26") ≡ some (codes "1.0.0")
unfolding match_version
version_test = refl
