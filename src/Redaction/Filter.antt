-- ===== src/Redaction/Filter.antt =====
-- redaction.py: `RedactingFilter`, over what `logging` does to a record: the %-formatting of
-- `getMessage`, `repr` of the arguments and `Formatter.formatException` are parameters.
pub mod Safe
use teamspeak_prometheus.Base.{
  ℕ, ◌≡◌, refl, Bool, true, false, Option, none, some, List, [], ◌∷◌, ◌++◌, Text, codes, is_empty,
  All, is_infix, if◌then◌else◌, arith, ap, Bool-cases, inl, inr, Option-cases,
}
use teamspeak_prometheus.Redaction.{
  is_control, escape_control_characters, every_form, redact, secrets_for_redaction,
}
use teamspeak_prometheus.Redaction.Marker.{IsMarker}
use teamspeak_prometheus.Redaction.Hides.{NonEmpty, points, redact-Hides}
use teamspeak_prometheus.Redaction.Control.{
  OneLine, escape_control_characters-OneLine, redacted-OneLine, InRange-visible,
}
use teamspeak_prometheus.Redaction.Lines.{forms_of}

-- An argument of a log call: an `int` or `float`, or the `str()` of anything else.
pub data Value (N : Type 0) : Type 0 where
  number : N → Value N
  text : Text → Value N

-- `record.args`: absent or empty, a tuple, or a mapping.
pub data Arguments (N : Type 0) : Type 0 where
  nothing : Arguments N
  positional : List (Value N) → Arguments N
  named : List (Text × Value N) → Arguments N

pub record LogRecord (N E : Type 0) : Type 0 where
  pub msg : Text
  pub args : Arguments N
  pub exc_info : Option E
  pub exc_text : Option Text

-- What `logging` and `repr` do. `get_message` is `none` for a `TypeError`, `ValueError` or `KeyError`.
pub record Logging (N E : Type 0) : Type 0 where
  pub get_message : Text → Arguments N → Option Text
  pub repr_args : Arguments N → Text
  pub format_exception : E → Text

infixl 5 ◌>>=◌
abbrev ◌>>=◌ {ℓ κ} : {A : Type ℓ} {B : Type κ} → Option A → (A → Option B) → Option B
none >>= f = none
some t >>= f = f t

module _ {N E : Type 0} (L : Logging N E) (is_printable : ℕ → Bool) (secrets : List Text) where
  -- `self.redact`, with `self.secrets` as `__init__` sets them
  abbrev hide : Text → Option Text
  hide t = redact is_printable t (every_form secrets)

  unfoldable pub clean : Value N → Option (Value N)
  clean (number n) = some (number n)
  clean (text t) = do r ← hide t; some (text (escape_control_characters r))

  unfoldable pub clean_all : List (Value N) → Option (List (Value N))
  unfolding clean
  clean_all [] = some []
  clean_all (v ∷ vs) = do w ← clean v; ws ← clean_all vs; some (w ∷ ws)

  unfoldable pub clean_named : List (Text × Value N) → Option (List (Text × Value N))
  unfolding clean
  clean_named [] = some []
  clean_named ((k, v) ∷ vs) = do w ← clean v; ws ← clean_named vs; some ((k, w) ∷ ws)

  unfoldable pub clean_args : Arguments N → Option (Arguments N)
  unfolding clean_all clean_named
  clean_args nothing = some nothing
  clean_args (positional vs) = do ws ← clean_all vs; some (positional ws)
  clean_args (named vs) = do ws ← clean_named vs; some (named ws)

  -- the template and its arguments, if they do not fit
  abbrev message_of : Text → Arguments N → Option Text → Text
  message_of msg args (some message) = message
  message_of msg args none = msg ++ b' ' ∷ escape_control_characters (L.repr_args args)

  -- `exc_text` as it is before censoring: an empty one counts as absent
  abbrev traceback : Option E → Option Text → Option Text
  traceback (some e) none = some (L.format_exception e)
  traceback (some e) (some t) = if is_empty t then some (L.format_exception e) else some t
  traceback none t = t

  unfoldable pub hide_traceback : Option Text → Option (Option Text)
  hide_traceback none = some none
  hide_traceback (some t) = if is_empty t then some (some t) else (do r ← hide t; some (some r))

  -- `filter`; the result `none` is an exception that leaves it
  unfoldable pub filter_record : LogRecord N E → Option (LogRecord N E)
  unfolding clean_args hide_traceback
  filter_record r = do
    args ← clean_args r.args
    msg ← hide (message_of r.msg args (L.get_message r.msg args))
    exc_text ← hide_traceback (traceback r.exc_info r.exc_text)
    some (record { msg = msg; args = nothing; exc_info = r.exc_info; exc_text = exc_text })

  -- no secret stands in the text, raw or escaped
  abbrev pub Hidden : Text → Type 0
  Hidden t = All (λ s. NonEmpty s → is_infix s t ≡ false) (forms_of secrets)

  abbrev pub HiddenTraceback : Option Text → Type 0
  HiddenTraceback none = Unit
  HiddenTraceback (some t) = Hidden t

  -- the arguments hold no line break
  abbrev pub OneLineValue : Value N → Type 0
  OneLineValue (number n) = Unit
  OneLineValue (text t) = OneLine t

  abbrev pub OneLineArguments : Arguments N → Type 0
  OneLineArguments nothing = Unit
  OneLineArguments (positional vs) = All OneLineValue vs
  OneLineArguments (named vs) = All (λ (k, v). OneLineValue v) vs
