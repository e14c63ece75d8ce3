-- ===== src/Tests/Releases.antt =====
-- The release script on small changelogs, with a parser that knows headings and references.
use teamspeak_prometheus.Base.{
  ℕ, ◌+◌, ◌≡◌, refl, if◌then◌else◌, Option, none, some, List, [], ◌∷◌, ◌++◌, Text, codes, strip,
  starts_with, drop, join, same, list_eq, nat_eq, pair_eq,
}
use teamspeak_prometheus.Base.Dict
use teamspeak_prometheus.ServerQuery.{show_with}
use teamspeak_prometheus.Changelog.{
  Child, Token, Reference, References, links_outside, done, rejected, ended, unclosed_fences,
  links_from,
}
use teamspeak_prometheus.Changelog.Lines.{splitlines, match_version, match_label, strip_breaks}
use teamspeak_prometheus.Changelog.Section.{Markdown}
use teamspeak_prometheus.Changelog.Section.First.{First}
use teamspeak_prometheus.Changelog.Notes.{release_notes, main, prints}
use teamspeak_prometheus.Changelog.Notes.Standalone.{Standalone}

abbrev block : Text → Text → Text → ℕ → List Child → Token
block type tag content n children = record {
  type = type;
  tag = tag;
  level = 0;
  map = some (n, n + 1);
  content = content;
  children = children;
}

abbrev child : Text → Text → Text → Child
child type content href = record { type = type; content = content; href = href; src = [] }

-- `[x]`, if there is a definition
abbrev reference_tokens : ℕ → Option Reference → List Token
reference_tokens n none = block (codes "inline") [] (codes "[x]") n [] ∷ []
reference_tokens n (some reference) =
    block (codes "inline") [] (codes "[x]") n (
      child (codes "link_open") [] reference.href
      ∷ child (codes "text") (codes "x") []
      ∷ child (codes "link_close") [] []
      ∷ [])
    ∷ []

unfoldable tokens_of : References → ℕ → List Text → List Token
unfolding starts_with
tokens_of references n [] = []
tokens_of references n (line ∷ lines) =
    let rest = tokens_of references (n + 1) lines in
    if starts_with (codes "## ") line
    then block (codes "heading_open") (codes "h2") [] n []
      ∷ block (codes "inline") [] (drop 3 line) n []
      ∷ rest
    else if same line (codes "[x]")
    then reference_tokens n (Dict.get references (codes "x")) ++ rest
    else rest

unfoldable definitions_of : References → ℕ → List Text → References
definitions_of references n [] = references
definitions_of references n (line ∷ lines) =
    let rest = definitions_of references (n + 1) lines in
    if same line (codes "[x]: /x")
    then Dict.put rest (codes "x") (record { map = (n, n + 1); href = codes "/x" })
    else rest

abbrev markdown : Markdown
markdown text references =
    let lines = splitlines text in
    let all = definitions_of references 0 lines in (tokens_of all 0 lines, all)

abbrev changelog : Text
changelog = join 10 (
    codes "# Changes"
    ∷ codes "## [2.0] - now"
    ∷ []
    ∷ codes "[x]"
    ∷ codes "[x]: /x"
    ∷ codes "## [1.0] - then"
    ∷ codes "[x]"
    ∷ [])

abbrev notes : Text
notes = codes "[x]" ++ 10 ∷ codes "[x]: /x"

released : release_notes markdown changelog (codes "v2.0") ≡ done notes
unfolding release_notes ended join splitlines tokens_of definitions_of match_version strip_breaks
    strip unclosed_fences links_from Dict.get Dict.put Dict.keys list_eq nat_eq pair_eq
released = refl

-- The definition stands in the section above.
refused_test :
    release_notes markdown changelog (codes "1.0")
    ≡ rejected (links_outside (codes "[x] uses [x], defined on line 5" ∷ []))
unfolding release_notes ended join splitlines tokens_of definitions_of match_version match_label
    strip_breaks strip unclosed_fences links_from show_with Dict.get Dict.put Dict.keys list_eq
    nat_eq pair_eq
refused_test = refl

main_test : main markdown (λ path. changelog) (codes "v2.0" ∷ []) ≡ prints notes
unfolding main
main_test = rw released refl
