-- ===== src/Tests/Texts.antt =====
-- Wire and redaction at concrete texts.
use teamspeak_prometheus.Base.{
  List, ◌++◌, true, ℕ, ◌≡◌, refl, Text, codes, false, none, some, [], ◌∷◌, arith, All, inl,
  replicate, is_infix, join, map, is_space, list_eq, nat_eq,
}
use teamspeak_prometheus.Base.Dict
use teamspeak_prometheus.Characters.{ascii}
use teamspeak_prometheus.Wire.{escape, unescape, decode_record}
use teamspeak_prometheus.Wire.RoundTrip.{unescape-escape}
use teamspeak_prometheus.Wire.Framing.{is_framing, escape-is_framing}
use teamspeak_prometheus.Wire.Records.{Field, IsField, field_text, decode_record-fields}
use teamspeak_prometheus.Redaction.{
  redact, secrets_for_redaction, is_control, escape_control_characters,
}
use teamspeak_prometheus.Redaction.Marker.{IsMarker}
use teamspeak_prometheus.Redaction.Hides.{NonEmpty, points, redact-hides}
use teamspeak_prometheus.Redaction.Control.{OneLine}
use teamspeak_prometheus.Redaction.Lines.{forms_of}
use teamspeak_prometheus.Redaction.Filter.{
  nothing, LogRecord, Logging, filter_record, Hidden, HiddenTraceback, HiddenTraceback,
}
use teamspeak_prometheus.Redaction.Filter.Safe.{filter_record-hides, filter_record-OneLine}
use teamspeak_prometheus.Metrics.{label_value}
use teamspeak_prometheus.Metrics.Labels.Hides.{label_value-hides}
use teamspeak_prometheus.Redaction.Order.{SecretSet, redact-set}
use mathlib.Core.Quot

unescape-escape_example : unescape (escape (codes "a b|c\\s\n")) ≡ codes "a b|c\\s\n"
unescape-escape_example = unescape-escape (codes "a b|c\\s\n")

escape-is_framing_example : All (λ d. is_framing d ≡ false) (escape (codes "a b|c\n"))
escape-is_framing_example = escape-is_framing (codes "a b|c\n")

abbrev name_field : Field
name_field = (codes "name", some (codes "a b"))

abbrev other_field : Field
other_field = (codes "name", some (codes "c"))

fields-IsField : All IsField (name_field ∷ other_field ∷ [])
unfolding is_space
fields-IsField = ground arith

decode_record-fields_example :
    decode_record (join b' ' (map field_text (name_field ∷ other_field ∷ [])))
    ≡ (codes "name", some (codes "c")) ∷ []
unfolding Dict.put list_eq nat_eq
decode_record-fields_example = decode_record-fields name_field (other_field ∷ []) fields-IsField

abbrev password : Text
password = codes "a\nb"

marker : IsMarker ascii.is_printable points (forms_of (password ∷ [])) b'#'
unfolding escape_control_characters
marker = record {
  unused = ground arith;
  shown = refl;
  in_range = inl (unfold list_eq nat_eq in refl);
}

raw_marker : IsMarker ascii.is_printable points (password ∷ []) b'#'
raw_marker = record {
  unused = ground arith;
  shown = refl;
  in_range = inl (unfold list_eq nat_eq in refl);
}

redact-hides_example :
    (r : Text) × (redact ascii.is_printable (codes "xa\nby") (secrets_for_redaction (password ∷ []))
      ≡ some r)
    × All (λ s. NonEmpty s → is_infix s r ≡ false) (password ∷ [])
redact-hides_example =
    redact-hides ascii.is_printable (codes "xa\nby") (password ∷ []) b'#' raw_marker

-- formatting that drops the arguments
abbrev dropping : Logging ℕ Text
dropping = record {
  get_message = λ msg args. some msg;
  repr_args = λ args. [];
  format_exception = λ e. e;
}

abbrev log_record : LogRecord ℕ Text
log_record = record {
  msg = codes "login with a\\nb";
  args = nothing;
  exc_info = some (codes "rejected: a\nb");
  exc_text = none;
}

dropping-OneLine : (msg m : Text) → some msg ≡ some m → OneLine msg → OneLine m
dropping-OneLine msg m e line = grind arith

log_record-OneLine : OneLine log_record.msg
unfolding is_control
log_record-OneLine = ground arith

filter_record-hides_example :
    (t : LogRecord ℕ Text) × (filter_record dropping ascii.is_printable (password ∷ []) log_record
      ≡ some t)
    × Hidden dropping ascii.is_printable (password ∷ []) t.msg
    × (t.args ≡ nothing)
    × HiddenTraceback dropping ascii.is_printable (password ∷ []) t.exc_text
filter_record-hides_example =
    filter_record-hides dropping ascii.is_printable (password ∷ []) b'#' marker log_record

filter_record-OneLine_example :
    (t : LogRecord ℕ Text) × (filter_record dropping ascii.is_printable (password ∷ []) log_record
      ≡ some t)
    × OneLine t.msg
filter_record-OneLine_example =
    filter_record-OneLine dropping ascii.is_printable (password ∷ []) b'#' marker log_record
      (λ args m clean e. dropping-OneLine log_record.msg m e log_record-OneLine) log_record-OneLine

-- a set that gives two secrets of one length in either order, and one secret twice
abbrev one_order : List Text
one_order = codes "ab" ∷ codes "bc" ∷ codes "ab" ∷ []

abbrev other_order : List Text
other_order = codes "bc" ∷ codes "ab" ∷ []

one_set : ◌≡◌ {A = SecretSet} (Quot.mk one_order) (Quot.mk other_order)
one_set = Quot.sound (ground arith, ground arith)

redact-set_example :
    redact ascii.is_printable (codes "abc") (secrets_for_redaction one_order)
    ≡ redact ascii.is_printable (codes "abc") (secrets_for_redaction other_order)
redact-set_example = redact-set ascii.is_printable (codes "abc") one_order other_order one_set

one_order_test :
    redact ascii.is_printable (codes "abc") (secrets_for_redaction one_order)
    ≡ some (codes "*censored*c")
unfolding redact secrets_for_redaction is_infix
one_order_test = refl

abbrev long_name : Text
long_name = replicate 300 b'a' ++ password

label_value-hides_example :
    (r : Text) × (redact ascii.is_printable long_name (secrets_for_redaction (password ∷ []))
      ≡ some r)
    × All (λ s. NonEmpty s → is_infix s (label_value r) ≡ false) (password ∷ [])
label_value-hides_example =
    label_value-hides ascii.is_printable long_name (password ∷ []) b'#' raw_marker (ground arith)

-- A password `x…` stands in no part of this name, and at the end of its label.
abbrev cut_name : Text
cut_name = replicate 254 b'a' ++ codes "xyz"

cut_name_test :
    redact ascii.is_printable cut_name (secrets_for_redaction (codes "x…" ∷ [])) ≡ some cut_name
unfolding redact secrets_for_redaction is_infix
cut_name_test = refl

cut_label_test : is_infix (codes "x…") (label_value cut_name) ≡ true
unfolding is_infix label_value
cut_label_test = refl
