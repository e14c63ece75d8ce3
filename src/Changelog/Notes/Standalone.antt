-- ===== src/Changelog/Notes/Standalone.antt =====
-- .github/scripts/changelog_section.py: the links of the notes that `release_notes` gives.
use teamspeak_prometheus.Base.{◌≡◌, ◌≢◌, ◌≤◌, ◌⊎◌, [], Text, All, list_eq, nat_eq, pair_eq}
use teamspeak_prometheus.Changelog.{Reference, done, Link, Counter, count, links}
use teamspeak_prometheus.Changelog.Section.{Markdown, parse}
use teamspeak_prometheus.Changelog.Notes.{outside}

-- The target of the link is not that of the definition.
abbrev pub Apart : Link → Text × Reference → Type 0
Apart link (label, reference) = reference.href ≢ link.1.1

module _ (markdown : Markdown) where
  -- Every link that the notes have among the definitions of the changelog is there as often without
  -- them, or no definition from outside has its target.
  abbrev pub Standalone : Text → Text → Type 0
  Standalone notes changelog =
      (in_context : Counter) × (alone : Counter) × (links
          (parse markdown notes (outside markdown notes changelog)).0
        ≡ done in_context)
      × (links (parse markdown notes []).0 ≡ done alone)
      × All
          (λ (link, n).
            (n ≤ count alone link) ⊎ All (Apart link) (outside markdown notes changelog))
          in_context
