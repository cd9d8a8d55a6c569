-- ===== src/Markup/Refinement.antt =====
-- The build operations of native/src/ops/markup.rs answer what Markup.Contract promises.
use kotlogram.Base.{
  ◌≡◌, refl, ap, Bool, true, false, List, [], ◌∷◌, map, none, some, Option-cases, inl, inr, All,
}
use kotlogram.Error.{ok}
use kotlogram.Markup.Text.{from_utf8}
use kotlogram.Markup.Specs.{InlineButtonSpec, KeyboardButtonSpec, MarkupSpec}
use kotlogram.Markup.Layer.{KeyboardButton, ReplyKeyboardMarkup, ReplyMarkup}
use kotlogram.Markup.Grammers.{
  Builders, Documented, inline_row, key_row, plain_keyboard, plain_force_reply,
}
use kotlogram.Markup.Build.{
  keeps_peer, inline_button, keyboard_button, inline_rows, keyboard_rows, reply_keyboard_markup,
  force_reply_markup, hide_keyboard_markup, reply_markup_from_spec,
}
use kotlogram.Markup.Documents.{
  empty, button_of, inline_type_dto, inline_button_dto, key_type_dto, keyboard_button_dto,
  inline_rows_dto, keyboard_rows_dto, reply_markup_dto, markup_dto, peer_type_names,
}
use kotlogram.Markup.Faults.{
  inline_made, key_made, build_rows-fault, inline_button-fault, keyboard_button-fault,
}
use kotlogram.Markup.Handlers.{build_document}
use kotlogram.Markup.Contract.{
  refused_or, inline_fault, key_fault, rows_fault, spec_fault, inline_document, key_document,
  spec_document, HoldsText, SpecHoldsText,
}

-- Projecting what a row of specifications made gives the documents of the row.
module _ {ℓ κ μ} {T : Type ℓ} {U : Type κ} {D : Type μ} (P : (T → Type 0)) (made : (T → U))
    (projected : (U → D)) (stands_for : (T → D))
    (meets : ((t : T) → P t → projected (made t) ≡ stands_for t)) where
  map-made : (specs : List T) → All P specs → map projected (map made specs) ≡ map stands_for specs
  map-made [] all = refl
  map-made (spec ∷ specs) (this, others) = rw (meets spec this, map-made specs others)

  -- The same of rows, which the layer keeps in a wrapper of its own.
  module _ {R : Type μ} (wrap : (List U → R)) (buttons : (R → List U))
      (unwraps : ((us : List U) → buttons (wrap us) ≡ us)) where
    map-map-made :
        (rows : List (List T))
        → All (All P) rows
        → map (λ row. map projected (buttons row)) (map wrap (map (map made) rows))
          ≡ map (map stands_for) rows
    map-map-made [] all = refl
    map-map-made (row ∷ rows) (this, others) =
        rw (unwraps (map made row), map-made row this, map-map-made rows others)

inline_button_dto-made :
    (spec : InlineButtonSpec)
    → HoldsText spec
    → inline_button_dto (inline_made spec) ≡ inline_document spec
unfolding inline_button_dto inline_type_dto button_of from_utf8 peer_type_names keeps_peer
inline_button_dto-made (InlineButtonSpec.url t u) text = refl
inline_button_dto-made (InlineButtonSpec.web_view t u) text = refl
inline_button_dto-made (InlineButtonSpec.callback t p) text = rw text
inline_button_dto-made (InlineButtonSpec.switch_inline t q none) text = refl
inline_button_dto-made (InlineButtonSpec.switch_inline t q (some same)) text = refl

keyboard_button_dto-made :
    (spec : KeyboardButtonSpec) → keyboard_button_dto (key_made spec) ≡ key_document spec
unfolding keyboard_button_dto key_type_dto button_of
keyboard_button_dto-made (KeyboardButtonSpec.text t) = refl
keyboard_button_dto-made (KeyboardButtonSpec.request_phone t) = refl
keyboard_button_dto-made (KeyboardButtonSpec.request_geo t) = refl
keyboard_button_dto-made (KeyboardButtonSpec.request_poll t true) = refl
keyboard_button_dto-made (KeyboardButtonSpec.request_poll t false) = refl

no_condition : {T : Type 0} (rows : List (List T)) → All (All (λ (spec : T). Unit {0})) rows
no_condition [] = tt
no_condition (row ∷ rows) = (one_row row, no_condition rows)
  where
    one_row : {T : Type 0} (row : List T) → All (λ (spec : T). Unit {0}) row
    one_row [] = tt
    one_row (spec ∷ specs) = (tt, one_row specs)

-- The keyboard that the options make.
abbrev pub keyboard_made : Bool → Bool → Bool → List (List KeyboardButton) → ReplyKeyboardMarkup
keyboard_made fit single only_some rows = record (plain_keyboard rows) {
  resize = fit;
  single_use = single;
  selective = only_some;
}

-- The layer's markup of a specification.
abbrev pub markup_made : MarkupSpec → ReplyMarkup
markup_made (MarkupSpec.inline rows) =
    ReplyMarkup.reply_inline_markup (map inline_row (map (map inline_made) rows))
markup_made (MarkupSpec.keyboard rows fit single only_some) =
    ReplyMarkup.reply_keyboard_markup (keyboard_made fit single only_some (map (map key_made) rows))
markup_made (MarkupSpec.force_reply single only_some) =
    ReplyMarkup.reply_keyboard_force_reply
      (record plain_force_reply { single_use = single; selective = only_some })
markup_made (MarkupSpec.hide only_some) = ReplyMarkup.reply_keyboard_hide only_some

markup_dto-made :
    (spec : MarkupSpec) → SpecHoldsText spec → markup_dto (markup_made spec) ≡ spec_document spec
unfolding markup_dto reply_markup_dto inline_rows_dto keyboard_rows_dto empty
markup_dto-made (MarkupSpec.inline rows) text = rw (
    map-map-made HoldsText inline_made inline_button_dto inline_document inline_button_dto-made
      inline_row (λ row. row.buttons) (λ us. refl) rows text)
markup_dto-made (MarkupSpec.keyboard rows fit single only_some) text = rw (
    map-map-made (λ spec. Unit {0}) key_made keyboard_button_dto key_document
      (λ spec any. keyboard_button_dto-made spec) key_row (λ row. row.buttons) (λ us. refl) rows
      (no_condition rows))
markup_dto-made (MarkupSpec.force_reply single only_some) text = refl
markup_dto-made (MarkupSpec.hide only_some) text = refl

module _ (b : Builders) (d : Documented b) where
  reply_keyboard_markup_lem :
      (fit single only_some : Bool) (rows : List (List KeyboardButton))
      → reply_keyboard_markup b fit single only_some rows
        ≡ ReplyMarkup.reply_keyboard_markup (keyboard_made fit single only_some rows)
  unfolding reply_keyboard_markup
  reply_keyboard_markup_lem false false false rows = d.keys rows
  reply_keyboard_markup_lem false false true rows = rw (d.keys rows) (d.selective_keyboard _)
  reply_keyboard_markup_lem false true false rows = rw (d.keys rows) (d.single_keyboard _)
  reply_keyboard_markup_lem false true true rows =
      rw (d.keys rows, d.single_keyboard (plain_keyboard rows)) (d.selective_keyboard _)
  reply_keyboard_markup_lem true false false rows = rw (d.keys rows) (d.fit_keyboard _)
  reply_keyboard_markup_lem true false true rows =
      rw (d.keys rows, d.fit_keyboard (plain_keyboard rows)) (d.selective_keyboard _)
  reply_keyboard_markup_lem true true false rows =
      rw (d.keys rows, d.fit_keyboard (plain_keyboard rows)) (d.single_keyboard _)
  reply_keyboard_markup_lem true true true rows =
      rw
        (
          d.keys rows,
          d.fit_keyboard (plain_keyboard rows),
          d.single_keyboard (keyboard_made true false false rows),
        )
        (d.selective_keyboard _)

  force_reply_markup_lem :
      (single only_some : Bool)
      → force_reply_markup b single only_some
        ≡ ReplyMarkup.reply_keyboard_force_reply
            (record plain_force_reply { single_use = single; selective = only_some })
  unfolding force_reply_markup
  force_reply_markup_lem false false = d.force
  force_reply_markup_lem false true = rw d.force (d.selective_reply _)
  force_reply_markup_lem true false = rw d.force (d.single_reply _)
  force_reply_markup_lem true true =
      rw (d.force, d.single_reply plain_force_reply) (d.selective_reply _)

  hide_keyboard_markup_lem :
      (only_some : Bool)
      → hide_keyboard_markup b only_some ≡ ReplyMarkup.reply_keyboard_hide only_some
  unfolding hide_keyboard_markup
  hide_keyboard_markup_lem false = d.hidden
  hide_keyboard_markup_lem true = rw d.hidden (d.selective_hide false)

  pub reply_markup_from_spec-fault :
      (spec : MarkupSpec)
      → reply_markup_from_spec b spec ≡ refused_or (spec_fault spec) (markup_made spec)
  unfolding reply_markup_from_spec inline_rows keyboard_rows
  reply_markup_from_spec-fault (MarkupSpec.inline rows) =
      rw
        (build_rows-fault (inline_button b) inline_fault inline_made (inline_button-fault b d) rows)
        (elim (Option-cases (rows_fault inline_fault rows)) [
          | inl fine ↦ rw (fine, d.buttons (map (map inline_made) rows))
          | inr (e, first) ↦ rw first
        ])
  reply_markup_from_spec-fault (MarkupSpec.keyboard rows fit single only_some) =
      rw (build_rows-fault (keyboard_button b) key_fault key_made (keyboard_button-fault b d) rows)
        (elim (Option-cases (rows_fault key_fault rows)) [
          | inl fine ↦
              rw (fine, reply_keyboard_markup_lem fit single only_some (map (map key_made) rows))
          | inr (e, first) ↦ rw first
        ])
  reply_markup_from_spec-fault (MarkupSpec.force_reply single only_some) =
      ap ok (force_reply_markup_lem single only_some)
  reply_markup_from_spec-fault (MarkupSpec.hide only_some) =
      ap ok (hide_keyboard_markup_lem only_some)

  -- Where grammers' builders build what they document, and callback data is UTF-8, as every Rust text
  -- is: the build operations meet the contract of their specification. A specification with a fault is
  -- refused with the first one in reading order: no row, a row without buttons, an empty label, and
  -- callback data that is empty or longer than 64 bytes. Every other one is answered with the document
  -- that it stands for: its buttons in their rows, with their labels, data and options, and nothing
  -- that it did not ask for.
  pub build_document-Refines :
      (spec : MarkupSpec)
      → SpecHoldsText spec
      → build_document b spec ≡ refused_or (spec_fault spec) (spec_document spec)
  unfolding build_document
  build_document-Refines spec text =
      rw (reply_markup_from_spec-fault spec, ← markup_dto-made spec text)
        (elim (Option-cases (spec_fault spec)) [ inl fine ↦ rw fine | inr (e, first) ↦ rw first ])
