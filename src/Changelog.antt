-- ===== src/Changelog.antt =====
-- .github/scripts/changelog_section.py: what the markdown parser gives, and the links in it. The parser is
-- a parameter of the modules below.
pub mod Lines
pub mod Section
pub mod Notes
use teamspeak_prometheus.Base.{
  ℕ, zero, suc, ◌+◌, ◌-◌, ◌≡◌, refl, Bool, true, false, ◌&&◌, ◌||◌, ◌==◌, ltb, if◌then◌else◌,
  Option, none, some, List, [], ◌∷◌, ◌++◌, Text, codes, same, list_eq, option_eq, pair_eq, nat_eq,
}
use teamspeak_prometheus.Base.Dict
use teamspeak_prometheus.Base.Dict.{Dict}

-- a token inside of a block; `href` is what `attrGet` gives for a `link_open`, and `src` for an `image`
pub record Child : Type 0 where
  pub type : Text
  pub content : Text
  pub href : Text
  pub src : Text

-- `Token`
pub record Token : Type 0 where
  pub type : Text
  pub tag : Text
  pub level : ℕ
  pub map : Option (ℕ × ℕ)
  pub content : Text
  pub children : List Child

-- the definition of a link, with its lines and its target
pub record Reference : Type 0 where
  pub map : ℕ × ℕ
  pub href : Text

abbrev pub References : Type 0
References = Dict Text Reference

-- The messages of `NotesError`, with what they quote.
pub data NotesError : Type 0 where
  never_closed : Text → NotesError
  no_section : Text → NotesError
  no_section_unclosed : Text → NotesError
  empty_section : Text → NotesError
  links_outside : List Text → NotesError

-- `crashes` stands for a `TypeError` or an `IndexError`.
pub data Outcome {ℓ} (A : Type ℓ) : Type ℓ where
  done : A → Outcome A
  rejected : NotesError → Outcome A
  crashes : Outcome A

infixl 5 ◌>>=◌
abbrev pub ◌>>=◌ {ℓ κ} : {A : Type ℓ} {B : Type κ} → Outcome A → (A → Outcome B) → Outcome B
done a >>= f = f a
rejected e >>= f = rejected e
crashes >>= f = crashes

pub bind-done :
    {A B : Type 0} (o : Outcome A) (f : A → Outcome B) (b : B)
    → (o >>= f) ≡ done b
    → (a : A) × (o ≡ done a) × (f a ≡ done b)
bind-done (done a) f b e = (a, refl, e)
bind-done (rejected x) f b e = absurd (cc)
bind-done crashes f b e = absurd (cc)

pub done-inj : {A : Type 0} (a b : A) → done a ≡ done b → a ≡ b
done-inj a b e = cc

-- `parse`, which ends the text with a line break
unfoldable pub ended : Text → Text
ended [] = 10 ∷ []
ended (c ∷ []) = if c == 10 then c ∷ [] else c ∷ 10 ∷ []
ended (c ∷ d ∷ text) = c ∷ ended (d ∷ text)

-- the opening line of a fence whose lines are one more than those of its content
abbrev pub line_breaks : Text → ℕ
line_breaks [] = 0
line_breaks (c ∷ text) = let rest = line_breaks text in if c == 10 then suc rest else rest

abbrev pub opening : Option (ℕ × ℕ) → Text → Outcome (List ℕ)
opening none content = crashes
opening (some (first, end)) content =
    done (if (end - first) == line_breaks content + 1 then first ∷ [] else [])

unfoldable pub unclosed_fences : List Token → Outcome (List ℕ)
unclosed_fences [] = done []
unclosed_fences (token ∷ tokens) = do
  first ← if same token.type (codes "fence") then opening token.map token.content else done []
  rest ← unclosed_fences tokens
  done (first ++ rest)

-- a link or an image: kind, text and target
abbrev pub Link : Type 0
Link = Text × (Text × Text)

-- `Counter`
abbrev pub Counter : Type 0
Counter = Dict Link ℕ

abbrev or_zero : Option ℕ → ℕ
or_zero none = 0
or_zero (some n) = n

unfoldable pub count : Counter → Link → ℕ
count c link = or_zero (Dict.get c link)

unfoldable pub add_one : Counter → Link → Counter
unfolding count
add_one c link = Dict.put c link (count c link + 1)

-- `a - b`, the positive ones of the differences
unfoldable pub subtract : Counter → Counter → Counter
unfolding count
subtract [] b = []
subtract ((link, n) ∷ a) b =
    let rest = subtract a b in
    if ltb (count b link) n then (link, n - count b link) ∷ rest else rest

-- `a == b`, for counters, where a missing link counts as 0
unfoldable pub covers : Counter → Counter → Bool
covers [] b = true
covers ((link, n) ∷ a) b = let rest = covers a b in (n == count b link) && rest

unfoldable pub equal_counters : Counter → Counter → Bool
unfolding covers
equal_counters a b = covers a b && covers b a

-- the loop over the children; `text` is the text of the link that is open
unfoldable pub child_links : List Child → Option Text → Text → Counter → Outcome Counter
unfolding add_one
child_links [] text href found = done found
child_links (child ∷ children) text href found = elim (same child.type (codes "link_open")) [
  | true ↦ child_links children (some []) child.href found
  | false ↦ elim (same child.type (codes "link_close")) [
    | true ↦ elim text [
      | none ↦ crashes
      | some t ↦ child_links children none href (add_one found (codes "link", (t, href)))
    ]
    | false ↦ elim (same child.type (codes "image")) [
      | true ↦
          child_links children text href (add_one found (codes "image", (child.content, child.src)))
      | false ↦ elim text [
        | none ↦ child_links children none href found
        | some t ↦ child_links children (some (t ++ child.content)) href found
      ]
    ]
  ]
]

unfoldable pub links_from : List Token → Counter → Outcome Counter
unfolding child_links
links_from [] found = done found
links_from (token ∷ tokens) found = do
  more ← child_links token.children none [] found
  links_from tokens more

-- `links`
abbrev pub links : List Token → Outcome Counter
links tokens = links_from tokens []
