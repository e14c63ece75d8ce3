-- ===== src/Redaction/Filter/Safe.antt =====
-- redaction.py: what a record holds after `RedactingFilter.filter`.
use teamspeak_prometheus.Base.{
  ℕ, ◌≡◌, refl, Bool, true, false, Option, none, some, List, [], ◌∷◌, Text, is_empty, All, is_infix,
  Bool-cases, inl, inr, sym, All-append,
}
use teamspeak_prometheus.Redaction.{is_control, escape_control_characters}
use teamspeak_prometheus.Redaction.Marker.{IsMarker}
use teamspeak_prometheus.Redaction.Hides.{NonEmpty, points, redact-Hides}
use teamspeak_prometheus.Redaction.Control.{
  OneLine, escape_control_characters-OneLine, redacted-OneLine, InRange-visible,
}
use teamspeak_prometheus.Redaction.Lines.{forms_of}
use teamspeak_prometheus.Redaction.Filter.{
  Value, number, text, Arguments, nothing, positional, named, LogRecord, Logging, hide, clean,
  clean_all, clean_named, clean_args, message_of, traceback, hide_traceback, filter_record, Hidden,
  HiddenTraceback, OneLineValue, OneLineArguments,
}

-- a step that returns, and what holds of its result
abbrev pub Gives : {A : Type 0} → (A → Type 0) → Option A → Type 0
Gives {A} P o = (a : A) × (o ≡ some a) × P a

space-visible : is_control b' ' ≡ false
unfolding is_control
space-visible = refl

is_empty-hides :
    (t : Text) (forms : List Text)
    → is_empty t ≡ true
    → All (λ s. NonEmpty s → is_infix s t ≡ false) forms
is_empty-hides t [] e = tt
is_empty-hides [] (s ∷ forms) e = (λ full. unfold is_infix in full, is_empty-hides [] forms e)
is_empty-hides (d ∷ t) (s ∷ forms) e = absurd (cc)

module _ {N E : Type 0} (L : Logging N E) (is_printable : ℕ → Bool) (secrets : List Text) (c : ℕ)
    (marker : IsMarker is_printable points (forms_of secrets) c) where
  hide-OneLine :
      (t : Text)
      → Gives
          (λ r. Hidden L is_printable secrets r × (OneLine t → OneLine r))
          (hide L is_printable secrets t)
  hide-OneLine t =
      let (r, e, h, keeps) =
        redact-Hides is_printable (λ d. is_control d ≡ false) t (forms_of secrets) c marker in
      (r, e, (h, keeps redacted-OneLine InRange-visible))

  clean_lem :
      (v : Value N) → Gives (OneLineValue L is_printable secrets) (clean L is_printable secrets v)
  unfolding clean
  clean_lem (number n) = (number n, refl, tt)
  clean_lem (text t) =
      let (r, e, _) = hide-OneLine t in
      (text (escape_control_characters r), rw e, escape_control_characters-OneLine r)

  clean_all_lem :
      (vs : List (Value N))
      → Gives (All (OneLineValue L is_printable secrets)) (clean_all L is_printable secrets vs)
  unfolding clean_all
  clean_all_lem [] = ([], refl, tt)
  clean_all_lem (v ∷ vs) =
      let (w, e, p) = clean_lem v in
      let (ws, es, ps) = clean_all_lem vs in (w ∷ ws, rw (e, es), (p, ps))

  clean_named_lem :
      (vs : List (Text × Value N))
      → Gives
          (All (λ (k, v). OneLineValue L is_printable secrets v))
          (clean_named L is_printable secrets vs)
  unfolding clean_named
  clean_named_lem [] = ([], refl, tt)
  clean_named_lem ((k, v) ∷ vs) =
      let (w, e, p) = clean_lem v in
      let (ws, es, ps) = clean_named_lem vs in ((k, w) ∷ ws, rw (e, es), (p, ps))

  clean_args_lem :
      (args : Arguments N)
      → Gives (OneLineArguments L is_printable secrets) (clean_args L is_printable secrets args)
  unfolding clean_args
  clean_args_lem nothing = (nothing, refl, tt)
  clean_args_lem (positional vs) = let (ws, e, p) = clean_all_lem vs in (positional ws, rw e, p)
  clean_args_lem (named vs) = let (ws, e, p) = clean_named_lem vs in (named ws, rw e, p)

  hide_traceback_lem :
      (o : Option Text)
      → Gives (HiddenTraceback L is_printable secrets) (hide_traceback L is_printable secrets o)
  unfolding hide_traceback
  hide_traceback_lem none = (none, refl, tt)
  hide_traceback_lem (some t) = elim (Bool-cases (is_empty t)) [
    | inl e ↦ (some t, rw e, is_empty-hides t (forms_of secrets) e)
    | inr e ↦ let (r, q, h) = hide-OneLine t in (some r, rw (e, q), h.0)
  ]

  -- Formatting the template with arguments of one line gives one line.
  abbrev pub FormatsLines : Text → Type 0
  FormatsLines msg =
      (args : Arguments N) (m : Text)
      → OneLineArguments L is_printable secrets args
      → L.get_message msg args ≡ some m
      → OneLine m

  message_of-OneLine :
      (msg : Text) (args : Arguments N) (o : Option Text)
      → FormatsLines msg
      → OneLine msg
      → OneLineArguments L is_printable secrets args
      → o ≡ L.get_message msg args
      → OneLine (message_of L is_printable secrets msg args o)
  message_of-OneLine msg args (some m) fits line clean e = fits args m clean (sym e)
  message_of-OneLine msg args none fits line clean e =
      All-append (λ d. is_control d ≡ false) msg
        (b' ' ∷ escape_control_characters (L.repr_args args)) line
        (space-visible, escape_control_characters-OneLine (L.repr_args args))

  filter_record_lem :
      (r : LogRecord N E)
      → Gives
          (λ t.
            Hidden L is_printable secrets t.msg
            × (t.args ≡ nothing)
            × HiddenTraceback L is_printable secrets t.exc_text
            × (FormatsLines r.msg → OneLine r.msg → OneLine t.msg))
          (filter_record L is_printable secrets r)
  unfolding filter_record
  filter_record_lem r =
      let (args, e₁, lines) = clean_args_lem r.args in
      let shown = L.get_message r.msg args in
      let (msg, e₂, hidden) = hide-OneLine (message_of L is_printable secrets r.msg args shown) in
      let (exc, e₃, below) =
        hide_traceback_lem (traceback L is_printable secrets r.exc_info r.exc_text) in
      (
        record { msg = msg; args = nothing; exc_info = r.exc_info; exc_text = exc },
        rw (e₁, e₂, e₃),
        (
          hidden.0,
          refl,
          below,
          λ fits line. hidden.1 (message_of-OneLine r.msg args shown fits line lines refl),
        ),
      )

  -- If a printable character of the candidates occurs in no secret, raw or escaped, the filter returns
  -- a record whose message and traceback hold no secret, neither raw nor escaped, empty ones aside,
  -- and which has no arguments left to format.
  pub filter_record-hides :
      (r : LogRecord N E)
      → (t : LogRecord N E) × (filter_record L is_printable secrets r ≡ some t)
        × Hidden L is_printable secrets t.msg
        × (t.args ≡ nothing)
        × HiddenTraceback L is_printable secrets t.exc_text
  filter_record-hides r = let (t, e, h) = filter_record_lem r in (t, e, h.0, h.1, h.2)

  -- If such a character exists, the template is of one line, and formatting it with arguments of one line
  -- gives one line, the message is of one line, whatever the arguments hold.
  pub filter_record-OneLine :
      (r : LogRecord N E)
      → FormatsLines r.msg
      → OneLine r.msg
      → (t : LogRecord N E) × (filter_record L is_printable secrets r ≡ some t) × OneLine t.msg
  filter_record-OneLine r fits line = let (t, e, h) = filter_record_lem r in (t, e, h.3 fits line)
