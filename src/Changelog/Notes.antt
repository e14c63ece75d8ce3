-- ===== src/Changelog/Notes.antt =====
-- .github/scripts/changelog_section.py: `broken_links`, `release_notes` and `main`. The texts of the files
-- are a parameter.
pub mod Standalone
use teamspeak_prometheus.Base.{
  ℕ, zero, suc, ◌+◌, ◌≡◌, refl, Bool, true, false, not, ◌&&◌, ◌||◌, ◌==◌, if◌then◌else◌, Option,
  none, some, List, [], ◌∷◌, ◌++◌, Text, codes, is_empty, strip, contains, same, list_eq, nat_eq,
  pair_eq,
}
use teamspeak_prometheus.Base.Dict
use teamspeak_prometheus.Base.Dict.{Dict}
use teamspeak_prometheus.ServerQuery.{show_ℕ}
use teamspeak_prometheus.Changelog.{
  Token, Reference, References, NotesError, empty_section, links_outside, Outcome, done, rejected,
  crashes, ◌>>=◌, Link, Counter, subtract, links,
}
use teamspeak_prometheus.Changelog.Lines.{
  splitlines, without_v, match_label, sort_with, text_lt, text_le,
}
use teamspeak_prometheus.Changelog.Section.{Markdown, parse, no_lines, section}

-- the definitions whose labels are not among the text's own
unfoldable pub foreign : References → References → References
foreign [] own = []
foreign ((label, reference) ∷ everywhere) own =
    let rest = foreign everywhere own in
    if contains (Dict.keys own) label then rest else (label, reference) ∷ rest

-- `<=` of two links, as of tuples
unfoldable pub link_le : Link × ℕ → Link × ℕ → Bool
unfolding text_lt
link_le ((k, (t, h)), _) ((l, (u, g)), _) =
    text_lt k l || (same k l && (text_lt t u || (same t u && text_le h g)))

abbrev label_le : Text × Reference → Text × Reference → Bool
label_le (a, _) (b, _) = text_le a b

-- `changelog_lines[n]`
abbrev pub line_at : ℕ → List Text → Outcome Text
line_at n [] = crashes
line_at zero (line ∷ lines) = done line
line_at (suc n) (line ∷ lines) = line_at n lines

abbrev or_label : Option Text → Text → Text
or_label none label = label
or_label (some raw) label = raw

abbrev shown : Link → Text
shown (kind, (text, href)) =
    if same kind (codes "image")
    then codes "![" ++ text ++ codes "]"
    else codes "[" ++ text ++ codes "]"

-- the message for a link and a definition that has its target
unfoldable pub message : List Text → Link → Text → Reference → Outcome Text
unfolding match_label
message lines link label reference = do
  line ← line_at reference.map.0 lines
  let written = or_label (match_label line) label
  done (
      shown link
      ++ codes " uses ["
      ++ written
      ++ codes "], defined on line "
      ++ show_ℕ (reference.map.0 + 1))

abbrev pub message_if : Bool → Outcome Text → Outcome (List Text)
message_if true o = o >>= λ text. done (text ∷ [])
message_if false o = done []

-- the inner loop of `broken_links`
unfoldable pub messages_of_link : List Text → Link → References → Outcome (List Text)
unfolding message
messages_of_link lines link [] = done []
messages_of_link lines link ((label, reference) ∷ outside) = do
  own ← message_if (same reference.href link.1.1) (message lines link label reference)
  rest ← messages_of_link lines link outside
  done (own ++ rest)

-- the outer loop
unfoldable pub messages : List Text → References → Counter → Outcome (List Text)
unfolding messages_of_link
messages lines outside [] = done []
messages lines outside ((link, _) ∷ broken) = do
  own ← messages_of_link lines link outside
  rest ← messages lines outside broken
  done (own ++ rest)

module _ (markdown : Markdown) where
  -- the definitions that the notes do not have
  abbrev pub outside : Text → Text → References
  outside notes changelog = foreign (parse markdown changelog []).1 (parse markdown notes []).1

  unfoldable pub broken_links : Text → Text → Outcome (List Text)
  unfolding messages subtract links foreign sort_with splitlines link_le
  broken_links notes changelog = do
    in_context ← links (parse markdown notes (outside notes changelog)).0
    alone ← links (parse markdown notes []).0
    messages (splitlines changelog) (sort_with label_le (outside notes changelog))
        (sort_with link_le (subtract in_context alone))

  unfoldable pub release_notes : Text → Text → Outcome Text
  unfolding section broken_links strip
  release_notes changelog version = do
    notes ← section markdown changelog version
    checked ←
        if is_empty (strip notes) then rejected (empty_section (without_v version)) else done notes
    broken ← broken_links notes changelog
    if no_lines broken then done notes else rejected (links_outside broken)

-- What the script ends with: the usage, the notes on the standard output, or the path and the error.
pub data Exit : Type 0 where
  usage : Exit
  prints : Text → Exit
  refused : Text → NotesError → Exit
  raises : Exit

abbrev pub exit_code : Exit → ℕ
exit_code usage = 2
exit_code (prints notes) = 0
exit_code (refused path e) = 1
exit_code raises = 1

abbrev exit_of : Text → Outcome Text → Exit
exit_of path (done notes) = prints notes
exit_of path (rejected e) = refused path e
exit_of path crashes = raises

-- `main`, where `read` gives the text of a file
unfoldable pub main : Markdown → (Text → Text) → List Text → Exit
unfolding release_notes
main markdown read [] = usage
main markdown read (version ∷ []) =
    let path = codes "CHANGELOG.md" in exit_of path (release_notes markdown (read path) version)
main markdown read (version ∷ path ∷ []) = exit_of path (release_notes markdown (read path) version)
main markdown read (version ∷ path ∷ other ∷ argv) = usage
