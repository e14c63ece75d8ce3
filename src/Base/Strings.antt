-- ===== src/Base/Strings.antt =====
-- Text as its code points, and the methods of `str` and `bytes` that the program uses.
use Prim.Native.Nat.{ℕ}
use Prim.Native.Char.{code}
use Prim.Native.String.{String}
use mathlib.Core.Path.{◌≡◌, refl}
use mathlib.Core.Logic.{◌≢◌}
use mathlib.Core.Bool.{Bool, true, false, ◌&&◌, ◌||◌}
use mathlib.Core.List.{List, [], ◌∷◌, ◌++◌, append_assoc}
use native.Mathlib.Omega.{arith}
use teamspeak_prometheus.Base.Tests.{◌==◌, leb, if◌then◌else◌}
use teamspeak_prometheus.Base.Lists.{All}

abbrev pub Text : Type 0
Text = List ℕ

abbrev pub codes : String → Text
codes String.[] = []
codes (String.◌∷◌ c s) = code c ∷ codes s

-- No character of the text is `c`.
abbrev pub Lacks : ℕ → Text → Type 0
Lacks c = All (λ d. d ≢ c)

abbrev pub is_empty : Text → Bool
is_empty [] = true
is_empty (c ∷ s) = false

-- `text.startswith(prefix)`
unfoldable pub starts_with : Text → Text → Bool
starts_with [] text = true
starts_with (c ∷ prefix) [] = false
starts_with (c ∷ prefix) (d ∷ text) = c == d && starts_with prefix text

-- `part in text`
unfoldable pub is_infix : Text → Text → Bool
unfolding starts_with
is_infix part [] = is_empty part
is_infix part (c ∷ text) = starts_with part (c ∷ text) || is_infix part text

-- `text.replace(raw, new)` for one character `raw`
unfoldable pub replace : ℕ → Text → Text → Text
replace raw new [] = []
replace raw new (c ∷ text) =
    if c == raw then new ++ replace raw new text else c ∷ replace raw new text

-- `text.split(sep)` for one character `sep`
abbrev push_front : ℕ → List Text → List Text
push_front c [] = (c ∷ []) ∷ []
push_front c (part ∷ parts) = (c ∷ part) ∷ parts

unfoldable pub split : ℕ → Text → List Text
split sep [] = [] ∷ []
split sep (c ∷ text) =
    let rest = split sep text in if c == sep then [] ∷ rest else push_front c rest

-- `text.partition(sep)` for one character `sep`: the middle part says whether `sep` was found
unfoldable pub partition : ℕ → Text → Text × Bool × Text
partition sep [] = ([], false, [])
partition sep (c ∷ text) =
    let rest = partition sep text in
    if c == sep then ([], true, text) else (c ∷ rest.0, rest.1, rest.2)

-- `sep.join(parts)` for one character `sep`
unfoldable pub join : ℕ → List Text → Text
join sep [] = []
join sep (part ∷ []) = part
join sep (part ∷ next ∷ parts) = part ++ sep ∷ join sep (next ∷ parts)

-- `str.isspace` of one character
unfoldable pub is_space : ℕ → Bool
is_space c =
    (leb 9 c && leb c 13)
    || (leb 28 c && leb c 32)
    || c == 0x85
    || c == 0xa0
    || c == 0x1680
    || (leb 0x2000 c && leb c 0x200a)
    || c == 0x2028
    || c == 0x2029
    || c == 0x202f
    || c == 0x205f
    || c == 0x3000

unfoldable pub lstrip : Text → Text
unfolding is_space
lstrip [] = []
lstrip (c ∷ text) = let rest = lstrip text in if is_space c then rest else c ∷ text

unfoldable pub rstrip : Text → Text
unfolding is_space
rstrip [] = []
rstrip (c ∷ text) = let rest = rstrip text in if is_empty rest && is_space c then [] else c ∷ rest

-- `text.strip()`
unfoldable pub strip : Text → Text
unfolding lstrip rstrip
strip text = rstrip (lstrip text)

pub replace-append :
    (raw : ℕ) (new s t : Text) → replace raw new (s ++ t) ≡ replace raw new s ++ replace raw new t
unfolding replace
replace-append raw new [] t = refl
replace-append raw new (c ∷ s) t =
    ground
      (arith, replace-append raw new s t, append_assoc new (replace raw new s) (replace raw new t))

pub split-Lacks : (sep : ℕ) (s : Text) → Lacks sep s → split sep s ≡ s ∷ []
unfolding split
split-Lacks sep [] h = refl
split-Lacks sep (c ∷ s) (ne, h) = ground (arith, split-Lacks sep s h)

pub split-append : (sep : ℕ) (s t : Text) → Lacks sep s → split sep (s ++ sep ∷ t) ≡ s ∷ split sep t
unfolding split
split-append sep [] t h = ground arith
split-append sep (c ∷ s) t (ne, h) = ground (arith, split-append sep s t h)

-- Splitting a join gives the parts back, if there is one and none holds the separator.
pub split-join :
    (sep : ℕ) (part : Text) (parts : List Text)
    → All (Lacks sep) (part ∷ parts)
    → split sep (join sep (part ∷ parts)) ≡ part ∷ parts
unfolding join
split-join sep part [] (h, _) = split-Lacks sep part h
split-join sep part (next ∷ parts) (h, hs) =
    ground (arith, split-append sep part (join sep (next ∷ parts)) h, split-join sep next parts hs)

pub partition-append :
    (sep : ℕ) (s t : Text) → Lacks sep s → partition sep (s ++ sep ∷ t) ≡ (s, true, t)
unfolding partition
partition-append sep [] t h = ground arith
partition-append sep (c ∷ s) t (ne, h) = ground (arith, partition-append sep s t h)

pub partition-Lacks : (sep : ℕ) (s : Text) → Lacks sep s → partition sep s ≡ (s, false, [])
unfolding partition
partition-Lacks sep [] h = refl
partition-Lacks sep (c ∷ s) (ne, h) = ground (arith, partition-Lacks sep s h)
