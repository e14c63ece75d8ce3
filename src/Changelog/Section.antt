-- ===== src/Changelog/Section.antt =====
-- .github/scripts/changelog_section.py: `section` and `without_the_link_block`.
pub mod First
use mathlib.Core.Option
use teamspeak_prometheus.Base.{
  ℕ, zero, suc, ◌+◌, ◌-◌, ◌≡◌, refl, Bool, true, false, not, ◌&&◌, ◌||◌, ◌==◌, leb, ltb,
  if◌then◌else◌, Option, none, some, List, [], ◌∷◌, ◌++◌, Text, codes, is_empty, strip, join, take,
  drop, length, max, map, same, list_eq, nat_eq, pair_eq,
}
use teamspeak_prometheus.Base.Dict
use teamspeak_prometheus.Changelog.{
  Token, Reference, References, NotesError, never_closed, no_section, no_section_unclosed, Outcome,
  done, rejected, crashes, ◌>>=◌, ended, unclosed_fences, Counter, equal_counters, links,
}
use teamspeak_prometheus.Changelog.Lines.{
  splitlines, strip_breaks, without_v, match_version, sort_with,
}

-- what the parser makes of a text, with definitions from elsewhere
abbrev pub Markdown : Type 0
Markdown = Text → References → List Token × References

abbrev pub lines_of : List Text → Text
lines_of lines = join 10 lines

abbrev pub no_lines : {A : Type 0} → List A → Bool
no_lines [] = true
no_lines (a ∷ l) = false

-- `lines[start:end]`
abbrev pub slice : {A : Type 0} → ℕ → ℕ → List A → List A
slice start end lines = take (end - start) (drop start lines)

-- the heading of a version, and its lines
abbrev pub Heading : Type 0
Heading = Text × Option (ℕ × ℕ)

abbrev heading_of : Token → Token → List Heading
heading_of token inline =
    if same token.type (codes "heading_open") && same token.tag (codes "h2") && token.level == 0
    then elim (match_version inline.content) [
      | none ↦ []
      | some version ↦ (version, token.map) ∷ []
    ]
    else []

unfoldable pub headings : List Token → List Heading
unfolding match_version
headings [] = []
headings (token ∷ []) = []
headings (token ∷ inline ∷ tokens) = heading_of token inline ++ headings (inline ∷ tokens)

-- where the section ends: before the next heading, if there is one
abbrev end_of : ℕ → List Heading → Outcome (ℕ × Bool)
end_of last [] = done (last, true)
end_of last ((_, none) ∷ rest) = crashes
end_of last ((_, some (first, _)) ∷ rest) = done (first, false)

-- the loop over the headings: the first and the last line of the section, and whether it is the last one
unfoldable pub find_section : Text → ℕ → List Heading → Outcome (Option (ℕ × (ℕ × Bool)))
find_section version last [] = done none
find_section version last ((found, none) ∷ rest) = crashes
find_section version last ((found, some (_, start)) ∷ rest) = elim (same found version) [
  | false ↦ find_section version last rest
  | true ↦ do stop ← end_of last rest; done (some (start, stop))
]

-- `while text and not text[-1].strip(): text.pop()`
unfoldable pub without_blank_end : List Text → List Text
unfolding strip
without_blank_end [] = []
without_blank_end (line ∷ lines) =
    let rest = without_blank_end lines in
    if no_lines rest && is_empty (strip line) then [] else line ∷ rest

-- `max((token.map[1] for token in tokens if token.map), default=0)`
abbrev end_or_zero : Option (ℕ × ℕ) → ℕ
end_or_zero none = 0
end_or_zero (some (_, end)) = end

unfoldable pub last_end : List Token → ℕ
last_end [] = 0
last_end (token ∷ tokens) = max (end_or_zero token.map) (last_end tokens)

abbrev pair_le : ℕ × ℕ → ℕ × ℕ → Bool
pair_le (a, b) (c, d) = ltb a c || (a == c && leb b d)

-- the lines that are not in a span, where the first one has this number
unfoldable pub outside_of : ℕ × ℕ → ℕ → List Text → List Text
outside_of span number [] = []
outside_of (first, end) number (line ∷ block) =
    let rest = outside_of (first, end) (number + 1) block in
    if leb first number && ltb number end then rest else line ∷ rest

abbrev spans_of : References → List (ℕ × ℕ)
spans_of references = map (λ (_, reference). reference.map) references

module _ (markdown : Markdown) where
  -- `parse`
  abbrev pub parse : Text → References → List Token × References
  parse text references = markdown (ended text) references

  abbrev links_with : List Text → List Text → Outcome Counter
  links_with text kept = links (parse (lines_of (text ++ [] ∷ kept)) []).0

  -- the spans whose lines are needed
  unfoldable pub used_spans :
      List Text → List Text → Counter → List (ℕ × ℕ) → Outcome (List (ℕ × ℕ))
  unfolding outside_of
  used_spans text block everything [] = done []
  used_spans text block everything (span ∷ spans) = do
    found ← links_with text (outside_of span 0 block)
    rest ← used_spans text block everything spans
    done (if equal_counters found everything then rest else span ∷ rest)

  abbrev lines_in : List Text → List (ℕ × ℕ) → List Text
  lines_in block [] = []
  lines_in block ((first, end) ∷ spans) = slice first end block ++ lines_in block spans

  abbrev with_kept : List Text → List Text → List Text
  with_kept text [] = text
  with_kept text (line ∷ kept) = text ++ [] ∷ line ∷ kept

  unfoldable pub without_the_link_block : List Text → Outcome (List Text)
  unfolding used_spans last_end without_blank_end sort_with
  without_the_link_block body = do
    let cut = last_end (parse (lines_of body) []).0
    let text = without_blank_end (take cut body)
    let block = drop cut body
    let spans = sort_with pair_le (spans_of (parse (lines_of block) []).1)
    everything ← links_with text block
    used ← used_spans text block everything spans
    done (with_kept text (lines_in block used))

  -- the section between two lines
  unfoldable pub section_between : Text → List Text → ℕ × (ℕ × Bool) → Outcome Text
  unfolding without_the_link_block unclosed_fences strip_breaks
  section_between version lines (start, (end, is_last)) = do
    let body = slice start end lines
    unclosed ← unclosed_fences (parse (lines_of body) []).0
    kept ←
        if not (no_lines unclosed)
        then rejected (never_closed version)
        else if is_last
        then without_the_link_block body
        else done body
    done (strip_breaks (lines_of kept))

  abbrev not_found : Text → List Token → Outcome Text
  not_found version tokens = do
    unclosed ← unclosed_fences tokens
    rejected (if no_lines unclosed then no_section version else no_section_unclosed version)

  unfoldable pub section : Text → Text → Outcome Text
  unfolding section_between find_section headings splitlines unclosed_fences
  section changelog given = do
    let version = without_v given
    let lines = splitlines changelog
    let tokens = (parse changelog []).0
    found ← find_section version (length lines) (headings tokens)
    elim found [
      | none ↦ not_found version tokens
      | some place ↦ section_between version lines place
    ]
