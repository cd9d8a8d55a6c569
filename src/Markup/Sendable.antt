-- ===== src/Markup/Sendable.antt =====
-- Every markup that native/src/ops/markup.rs builds keeps to what Telegram and grammers ask of one.
use kotlogram.Base.{
  ℕ, suc, ◌≡◌, refl, subst, ◌<◌, ◌≤◌, List, [], ◌∷◌, map, Option, none, some, Option-cases, true,
  false, inl, inr, length, All, arith,
}
use kotlogram.Error.{Error, ok}
use kotlogram.Markup.Specs.{InlineButtonSpec, KeyboardButtonSpec, MarkupSpec}
use kotlogram.Markup.Layer.{InlineButtonType, KeyboardInlineButton, KeyboardButton, ReplyMarkup}
use kotlogram.Markup.Grammers.{Builders, Documented, inline_row, key_row}
use kotlogram.Markup.Build.{reply_markup_from_spec}
use kotlogram.Markup.Contract.{
  or_else, inline_fault, key_fault, buttons_fault, faults_from, rows_fault, spec_fault,
}
use kotlogram.Markup.Faults.{inline_made, key_made}
use kotlogram.Markup.Refinement.{markup_made, reply_markup_from_spec-fault}

-- Callback data of 1 to 64 bytes.
abbrev DataFits : InlineButtonType → Type 0
DataFits (InlineButtonType.callback password payload) = (0 < length payload) × (length payload ≤ 64)
DataFits _ = Unit

abbrev pub SendableInline : KeyboardInlineButton → Type 0
SendableInline button = (0 < length button.text) × DataFits button.button_type

abbrev pub SendableKey : KeyboardButton → Type 0
SendableKey button = 0 < length button.text

-- A row or more, each with a button or more.
abbrev pub SendableRows {ℓ κ} :
    {R : Type ℓ} {U : Type κ} → (R → List U) → (U → Type 0) → List R → Type 0
SendableRows buttons P rows =
    (0 < length rows) × All (λ row. (0 < length (buttons row)) × All P (buttons row)) rows

abbrev pub IsSendable : ReplyMarkup → Type 0
IsSendable (ReplyMarkup.reply_inline_markup rows) =
    SendableRows (λ row. row.buttons) SendableInline rows
IsSendable (ReplyMarkup.reply_keyboard_markup markup) =
    SendableRows (λ row. row.buttons) SendableKey markup.rows
IsSendable (ReplyMarkup.reply_keyboard_force_reply markup) = Unit
IsSendable (ReplyMarkup.reply_keyboard_hide selective) = Unit

or_else-none : (one other : Option Error) → or_else one other ≡ none → (one ≡ none) × (other ≡ none)
or_else-none none other h = (refl, h)
or_else-none (some e) other h = absurd cc

-- A row without a fault makes buttons that meet what a button without a fault meets.
module _ {ℓ κ} {T : Type ℓ} {U : Type κ} (fault : (T → Option Error)) (made : (T → U))
    (P : (U → Type 0)) (sound : ((t : T) → fault t ≡ none → P (made t))) where
  row_sound : (specs : List T) → buttons_fault fault specs ≡ none → All P (map made specs)
  row_sound [] fine = tt
  row_sound (spec ∷ specs) fine =
      let (this, others) = or_else-none (fault spec) (buttons_fault fault specs) fine in
      (sound spec this, row_sound specs others)

  module _ {ρ} {R : Type ρ} (wrap : (List U → R)) (buttons : (R → List U))
      (unwraps : ((us : List U) → buttons (wrap us) ≡ us)) where
    abbrev made_rows : List (List T) → List R
    made_rows rows = map wrap (map (map made) rows)

    rows_from_sound :
        (index : ℕ) (rows : List (List T))
        → faults_from fault index rows ≡ none
        → All (λ row. (0 < length (buttons row)) × All P (buttons row)) (made_rows rows)
    rows_from_sound index [] fine = tt
    rows_from_sound index ([] ∷ rows) fine = absurd cc
    rows_from_sound index ((spec ∷ specs) ∷ rows) fine =
        let (this, others) =
          or_else-none (buttons_fault fault (spec ∷ specs)) (faults_from fault (suc index) rows)
            fine in
        (
          rw (unwraps (map made (spec ∷ specs))) (omega arith, row_sound (spec ∷ specs) this),
          rows_from_sound (suc index) rows others,
        )

    rows_sound :
        (rows : List (List T))
        → rows_fault fault rows ≡ none
        → SendableRows buttons P (made_rows rows)
    rows_sound [] fine = absurd cc
    rows_sound (row ∷ rows) fine = (omega arith, rows_from_sound 0 (row ∷ rows) fine)

inline_sound :
    (spec : InlineButtonSpec) → inline_fault spec ≡ none → SendableInline (inline_made spec)
inline_sound (InlineButtonSpec.url [] u) fine = absurd cc
inline_sound (InlineButtonSpec.url (c ∷ t) u) fine = (omega arith, tt)
inline_sound (InlineButtonSpec.web_view [] u) fine = absurd cc
inline_sound (InlineButtonSpec.web_view (c ∷ t) u) fine = (omega arith, tt)
inline_sound (InlineButtonSpec.callback [] p) fine = absurd cc
inline_sound (InlineButtonSpec.callback (c ∷ t) []) fine = absurd cc
inline_sound (InlineButtonSpec.callback (c ∷ t) (x ∷ p)) fine =
    (omega arith, (omega arith, ground arith))
inline_sound (InlineButtonSpec.switch_inline [] q same) fine = absurd cc
inline_sound (InlineButtonSpec.switch_inline (c ∷ t) q same) fine = (omega arith, tt)

key_sound : (spec : KeyboardButtonSpec) → key_fault spec ≡ none → SendableKey (key_made spec)
key_sound (KeyboardButtonSpec.text []) fine = absurd cc
key_sound (KeyboardButtonSpec.text (c ∷ t)) fine = omega arith
key_sound (KeyboardButtonSpec.request_phone []) fine = absurd cc
key_sound (KeyboardButtonSpec.request_phone (c ∷ t)) fine = omega arith
key_sound (KeyboardButtonSpec.request_geo []) fine = absurd cc
key_sound (KeyboardButtonSpec.request_geo (c ∷ t)) fine = omega arith
key_sound (KeyboardButtonSpec.request_poll [] asked) fine = absurd cc
key_sound (KeyboardButtonSpec.request_poll (c ∷ t) true) fine = omega arith
key_sound (KeyboardButtonSpec.request_poll (c ∷ t) false) fine = omega arith

markup_made-IsSendable :
    (spec : MarkupSpec) → spec_fault spec ≡ none → IsSendable (markup_made spec)
markup_made-IsSendable (MarkupSpec.inline rows) fine =
    rows_sound inline_fault inline_made SendableInline inline_sound inline_row (λ row. row.buttons)
      (λ us. refl) rows fine
markup_made-IsSendable (MarkupSpec.keyboard rows fit single only_some) fine =
    rows_sound key_fault key_made SendableKey key_sound key_row (λ row. row.buttons) (λ us. refl)
      rows fine
markup_made-IsSendable (MarkupSpec.force_reply single only_some) fine = tt
markup_made-IsSendable (MarkupSpec.hide only_some) fine = tt

-- Where grammers' builders build what they document: a markup that a specification is turned into has
-- a row or more if it is a keyboard or inline, each row has a button or more, no label is empty, and
-- callback data has 1 to 64 bytes.
pub reply_markup_from_spec-IsSendable :
    (b : Builders) (d : Documented b) (spec : MarkupSpec) (markup : ReplyMarkup)
    → reply_markup_from_spec b spec ≡ ok markup
    → IsSendable markup
reply_markup_from_spec-IsSendable b d spec markup built =
    let built = rw (reply_markup_from_spec-fault b d spec) at built in
    elim (Option-cases (spec_fault spec)) [
      | inl fine ↦
          let same : markup_made spec ≡ markup = cc (rw fine at built) in
          subst IsSendable same (markup_made-IsSendable spec fine)
      | inr (e, first) ↦ absurd (cc (rw first at built))
    ]
