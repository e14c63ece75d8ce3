-- ===== src/Changelog/Section/First.antt =====
-- .github/scripts/changelog_section.py: where `section` begins and ends.
use teamspeak_prometheus.Base.{
  ℕ, ◌≡◌, ◌≢◌, Bool, true, false, some, List, [], ◌∷◌, ◌++◌, Text, All, list_eq, nat_eq,
}
use teamspeak_prometheus.Changelog.{done, unclosed_fences}
use teamspeak_prometheus.Changelog.Lines.{strip_breaks}
use teamspeak_prometheus.Changelog.Section.{
  Markdown, parse, lines_of, slice, Heading, end_of, without_the_link_block,
}

-- The section begins after the first heading of the version, and ends before the next heading or with
-- the lines of the changelog.
abbrev pub First : Text → ℕ → List Heading → ℕ × (ℕ × Bool) → Type 0
First version last all (start, stop) =
    (before : List Heading) × (first : ℕ) × (rest : List Heading) × (all
      ≡ before ++ (version, some (first, start)) ∷ rest)
    × All (λ (found, lines). found ≢ version) before
    × (end_of last rest ≡ done stop)

module _ (markdown : Markdown) where
  -- the lines of the section that are kept
  abbrev Kept : Bool → List Text → List Text → Type 0
  Kept true body kept = without_the_link_block markdown body ≡ done kept
  Kept false body kept = body ≡ kept

  -- no code block of these lines is open at their end
  abbrev Closed : List Text → Type 0
  Closed body = unclosed_fences (parse markdown (lines_of body) []).0 ≡ done []

  -- the notes are those of the lines between two numbers
  abbrev pub Between : List Text → Text → ℕ × (ℕ × Bool) → Type 0
  Between lines notes (start, (end, is_last)) =
      (kept : List Text) × Closed (slice start end lines)
      × Kept is_last (slice start end lines) kept
      × (strip_breaks (lines_of kept) ≡ notes)
