-- ===== src/Redaction/Control.antt =====
-- redaction.py: the result of `escape_control_characters`.
use teamspeak_prometheus.Base.{
  ℕ, ◌≡◌, inl, inr, refl, false, ◌==◌, ltb, ◌/◌, ◌%◌, ◌<◌, ◌≤◌, [], ◌∷◌, Text, arith, All,
  All-append, Bool-cases, if◌then◌else◌, ap,
}
use teamspeak_prometheus.Redaction.{
  redacted, is_control, hex_digit, written_out, escape_control_characters,
}
use teamspeak_prometheus.Redaction.Marker.{InRange}
use teamspeak_prometheus.Redaction.Hides.{points}

abbrev pub OneLine : Text → Type 0
OneLine = All (λ c. is_control c ≡ false)

visible : (c : ℕ) → 32 ≤ c → c < 0x7f → is_control c ≡ false
unfolding is_control
visible c low high = ground arith

hex_digit_bounds : (n : ℕ) → n < 16 → (32 ≤ hex_digit n) × (hex_digit n < 0x7f)
hex_digit_bounds n h = ground arith

hex_digit-visible : (n : ℕ) → n < 16 → is_control (hex_digit n) ≡ false
hex_digit-visible n h = let (low, high) = hex_digit_bounds n h in visible (hex_digit n) low high

written_out-OneLine : (c : ℕ) → OneLine (written_out c)
unfolding written_out
written_out-OneLine c =
    let slash = visible b'\\' (omega arith) (omega arith) in
    let letter = λ (d : ℕ) (low : b'a' ≤ d) (high : d < 0x7f). visible d (omega arith) high in
    let digit = λ (d : ℕ). hex_digit-visible (d % 16) (omega arith) in
    elim (Bool-cases (c == 10)) [
      | inl e ↦ rw e (slash, (letter b'n' (omega arith) (omega arith), tt))
      | inr not_newline ↦ rw not_newline (elim (Bool-cases (c == 13)) [
        | inl e ↦ rw e (slash, (letter b'r' (omega arith) (omega arith), tt))
        | inr not_return ↦ rw not_return (elim (Bool-cases (ltb c 256)) [
          | inl e ↦ rw e (
            slash,
            (
              letter b'x' (omega arith) (omega arith),
              (hex_digit-visible (c / 16) (ground arith), (digit c, tt)),
            ),
          )
          | inr e ↦ rw e (
            slash,
            (
              letter b'u' (omega arith) (omega arith),
              (digit (c / 4096), (digit (c / 256), (digit (c / 16), (digit c, tt)))),
            ),
          )
        ])
      ])
    ]

escaped_one-OneLine : (c : ℕ) → OneLine (if is_control c then written_out c else c ∷ [])
escaped_one-OneLine c = elim (Bool-cases (is_control c)) [
  | inl e ↦ rw e (written_out-OneLine c)
  | inr e ↦ rw e (e, tt)
]

join_lines :
    (c : ℕ) (text : Text)
    → OneLine (escape_control_characters text)
    → OneLine (escape_control_characters (c ∷ text))
unfolding escape_control_characters
join_lines c text h =
    All-append (λ d. is_control d ≡ false) (if is_control c then written_out c else c ∷ [])
      (escape_control_characters text) (escaped_one-OneLine c) h

-- Whatever the text, its escaped form has no control character, line or paragraph separator.
pub escape_control_characters-OneLine : (text : Text) → OneLine (escape_control_characters text)
escape_control_characters-OneLine [] = unfold escape_control_characters in tt
escape_control_characters-OneLine (c ∷ text) =
    let rest = escape_control_characters-OneLine text in join_lines c text rest

pub escape_control_characters_of_OneLine :
    (text : Text) → OneLine text → escape_control_characters text ≡ text
unfolding escape_control_characters
escape_control_characters_of_OneLine [] h = refl
escape_control_characters_of_OneLine (c ∷ text) (p, h) =
    rw p (ap (λ t. c ∷ t) (escape_control_characters_of_OneLine text h))

-- Escaping twice is escaping once.
pub escape_control_characters_idem :
    (text : Text)
    → escape_control_characters (escape_control_characters text) ≡ escape_control_characters text
escape_control_characters_idem text =
    escape_control_characters_of_OneLine (escape_control_characters text)
      (escape_control_characters-OneLine text)

pub redacted-OneLine : OneLine redacted
unfolding is_control
redacted-OneLine = ground arith

pub InRange-visible : (d : ℕ) → InRange points d → is_control d ≡ false
unfolding is_control
InRange-visible d r = ground arith
