-- ===== src/Cli/Masking.antt =====
-- cli.py: `_mask_values`, which takes the values of the command line out of an error message.
use teamspeak_prometheus.Base.{
  ℕ, zero, suc, ◌-◌, ◌≡◌, refl, Bool, true, false, ◌&&◌, ◌||◌, ◌==◌, if◌then◌else◌, List, [], ◌∷◌,
  ◌++◌, Text, codes, is_empty, is_space, starts_with, partition, length, drop, contains, same,
  list_eq, nat_eq,
}
use teamspeak_prometheus.Redaction.{distinct, sort_by_length}

-- `…`
abbrev pub mask : ℕ
mask = 0x2026

-- what a token adds to the fragments
unfoldable pub fragments_of : List Text → Text → List Text
unfolding partition
fragments_of known token =
    let parts = partition b'=' token in
    if contains known token
    then []
    else if parts.1 && contains known parts.0
    then if is_empty parts.2 then [] else parts.2 ∷ []
    else if is_empty token
    then []
    else token ∷ []

unfoldable pub fragments : List Text → List Text → List Text
unfolding fragments_of
fragments known [] = []
fragments known (token ∷ argv) = fragments_of known token ++ fragments known argv

-- what may stand before a whole fragment, and what may stand after it
unfoldable pub opens : ℕ → Bool
unfolding is_space
opens c = is_space c || c == b'\'' || c == b'"' || c == b'='

unfoldable pub closes : ℕ → Bool
unfolding is_space
closes c = is_space c || c == b'\'' || c == b'"'

unfoldable pub ends_here : Text → Bool
unfolding closes
ends_here [] = true
ends_here (c ∷ text) = closes c

-- whether the fragment stands here, whole; the first argument tells what stands before
unfoldable pub is_whole : Text → Bool → Text → Bool
unfolding starts_with ends_here
is_whole fragment before text =
    before && starts_with fragment text && ends_here (drop (length fragment) text)

-- `re.sub(pattern, '…', masked)`; the number counts the characters that a match still covers
unfoldable pub mask_fragment : Text → Bool → ℕ → Text → Text
unfolding is_whole opens
mask_fragment fragment before skip [] = []
mask_fragment fragment before (suc skip) (c ∷ text) = mask_fragment fragment (opens c) skip text
mask_fragment fragment before zero (c ∷ text) = elim (is_whole fragment before (c ∷ text)) [
  | true ↦ mask ∷ mask_fragment fragment (opens c) (length fragment - 1) text
  | false ↦ c ∷ mask_fragment fragment (opens c) zero text
]

-- the loop over the fragments
unfoldable pub mask_fragments : List Text → Text → Text
unfolding mask_fragment
mask_fragments [] masked = masked
mask_fragments (fragment ∷ rest) masked =
    mask_fragments rest (mask_fragment fragment true zero masked)

-- `masked` before the hint is added
unfoldable pub masked_message : Text → List Text → List Text → Text
unfolding fragments mask_fragments distinct sort_by_length
masked_message message argv known =
    mask_fragments (sort_by_length (distinct (fragments known argv))) message

-- `_mask_values`
unfoldable pub mask_values : Text → List Text → List Text → Text
unfolding masked_message
mask_values message argv known =
    let masked = masked_message message argv known in
    if same masked message then masked else masked ++ codes " (argument values hidden; see --help)"

mask_test :
    mask_values
      (codes "argument --ts3port: expected 'x y' or x")
      (codes "--ts3port" ∷ codes "x" ∷ codes "--ts3host=x y" ∷ [])
      (codes "--ts3port" ∷ codes "--ts3host" ∷ [])
    ≡ (codes "argument --ts3port: expected '"
        ++ mask ∷ codes "' or "
        ++ mask ∷ codes " (argument values hidden; see --help)")
unfolding mask_values is_space list_eq nat_eq
mask_test = refl
