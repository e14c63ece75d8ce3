-- ===== src/Cli/Masked.antt =====
-- cli.py: what `_mask_values` leaves of the values in a message.
use teamspeak_prometheus.Base.{
  ◌≡◌, ◌⊎◌, Bool, true, false, ◌||◌, [], ◌∷◌, Text, Lacks, list_eq, nat_eq,
}
use teamspeak_prometheus.Cli.Masking.{mask, opens, is_whole}

-- The fragment stands somewhere, whole.
unfoldable pub occurs : Text → Bool → Text → Bool
unfolding is_whole opens
occurs fragment before [] = false
occurs fragment before (c ∷ text) =
    is_whole fragment before (c ∷ text) || occurs fragment (opens c) text

-- The part is the fragment, or nowhere whole in the text.
abbrev Absent : Text → Text → Bool → Text → Type 0
Absent part fragment before text = (part ≡ fragment) ⊎ (occurs part before text ≡ false)

-- No fragment stands in the text, whole, if it can be told from the mask.
abbrev pub Masked : Text → Text → Type 0
Masked text fragment = Lacks mask fragment → occurs fragment true text ≡ false
