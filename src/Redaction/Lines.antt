-- ===== src/Redaction/Lines.antt =====
-- redaction.py: the result of `printable`.
use teamspeak_prometheus.Base.{ℕ, ◌≡◌, Bool, false, some, List, ◌++◌, map, Text, All, is_infix}
use teamspeak_prometheus.Redaction.{is_control, escape_control_characters, printable}
use teamspeak_prometheus.Redaction.Marker.{IsMarker}
use teamspeak_prometheus.Redaction.Hides.{NonEmpty, points, redact-Hides}
use teamspeak_prometheus.Redaction.Control.{
  OneLine, escape_control_characters-OneLine, redacted-OneLine, InRange-visible,
}

-- every secret, as it is and with its control characters written out
abbrev pub forms_of : List Text → List Text
forms_of secrets = secrets ++ map escape_control_characters secrets

-- If a printable character of the candidates occurs in no secret, raw or escaped, `printable` returns
-- one line in which no secret is left, raw or escaped, empty ones aside.
pub printable-hides :
    (is_printable : ℕ → Bool) (text : Text) (secrets : List Text) (c : ℕ)
    → IsMarker is_printable points (forms_of secrets) c
    → (r : Text) × (printable is_printable text secrets ≡ some r)
      × All (λ s. NonEmpty s → is_infix s r ≡ false) (forms_of secrets)
      × OneLine r
printable-hides is_printable text secrets c marker =
    let forms = forms_of secrets in
    let (once, e, _, _) = redact-Hides is_printable (λ _. Unit {0}) text forms c marker in
    let (r, q, hidden, keeps) =
      redact-Hides is_printable (λ d. is_control d ≡ false) (escape_control_characters once) forms c
        marker in
    (
      r,
      unfold printable in rw (e) q,
      hidden,
      keeps redacted-OneLine InRange-visible (escape_control_characters-OneLine once),
    )
