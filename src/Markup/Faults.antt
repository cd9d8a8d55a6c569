-- ===== src/Markup/Faults.antt =====
-- The buttons and rows that native/src/ops/markup.rs builds, or the first fault that it finds.
use kotlogram.Base.{
  ℕ, suc, ◌≡◌, refl, ap, true, false, List, [], ◌∷◌, map, Option, none, some, Option-cases,
  Bool-cases, inl, inr, ltb, length,
}
use kotlogram.Error.{Error, Result, ok}
use kotlogram.Markup.Specs.{InlineButtonSpec, KeyboardButtonSpec}
use kotlogram.Markup.Layer.{InlineButtonType, ButtonType, KeyboardInlineButton, KeyboardButton}
use kotlogram.Markup.Grammers.{Builders, Documented, inline_of, key_of}
use kotlogram.Markup.Build.{
  label, callback_data, keeps_peer, build_row, checked_row, rows_from, build_rows, inline_button,
  keyboard_button,
}
use kotlogram.Markup.Documents.{}
use kotlogram.Markup.Contract.{
  refused_or, inline_fault, key_fault, buttons_fault, row_fault, faults_from, rows_fault,
}

-- Building fails at the first fault, and builds every button otherwise.
module _ {ℓ κ} {T : Type ℓ} {U : Type κ} (build : (T → Result U)) (fault : (T → Option Error))
    (made : (T → U)) (meets : ((t : T) → build t ≡ refused_or (fault t) (made t))) where
  build_row-fault :
      (specs : List T)
      → build_row build specs ≡ refused_or (buttons_fault fault specs) (map made specs)
  unfolding build_row
  build_row-fault [] = refl
  build_row-fault (spec ∷ specs) = elim (Option-cases (fault spec)) [
    | inl fine ↦
        rw (meets spec, fine, build_row-fault specs)
          (elim (Option-cases (buttons_fault fault specs)) [
            | inl all ↦ rw all
            | inr (e, first) ↦ rw first
          ])
    | inr (e, first) ↦ rw (meets spec, first)
  ]

  checked_row-fault :
      (index : ℕ) (row : List T)
      → checked_row build index row ≡ refused_or (row_fault fault index row) (map made row)
  unfolding checked_row
  checked_row-fault index [] = refl
  checked_row-fault index (spec ∷ specs) = build_row-fault (spec ∷ specs)

  rows_from-fault :
      (index : ℕ) (rows : List (List T))
      → rows_from build index rows ≡ refused_or (faults_from fault index rows) (map (map made) rows)
  unfolding rows_from
  rows_from-fault index [] = refl
  rows_from-fault index (row ∷ rows) = elim (Option-cases (row_fault fault index row)) [
    | inl fine ↦
        rw (checked_row-fault index row, fine, rows_from-fault (suc index) rows)
          (elim (Option-cases (faults_from fault (suc index) rows)) [
            | inl all ↦ rw all
            | inr (e, first) ↦ rw first
          ])
    | inr (e, first) ↦ rw (checked_row-fault index row, first)
  ]

  pub build_rows-fault :
      (rows : List (List T))
      → build_rows build rows ≡ refused_or (rows_fault fault rows) (map (map made) rows)
  unfolding build_rows
  build_rows-fault [] = refl
  build_rows-fault (row ∷ rows) = rows_from-fault 0 (row ∷ rows)

-- The layer's button of a specification.
abbrev pub inline_made : InlineButtonSpec → KeyboardInlineButton
inline_made (InlineButtonSpec.url t u) = inline_of t (InlineButtonType.url u)
inline_made (InlineButtonSpec.web_view t u) = inline_of t (InlineButtonType.web_view u)
inline_made (InlineButtonSpec.callback t d) = inline_of t (InlineButtonType.callback false d)
inline_made (InlineButtonSpec.switch_inline t q same) =
    inline_of t (InlineButtonType.switch_inline (keeps_peer same) q none)

abbrev pub key_made : KeyboardButtonSpec → KeyboardButton
key_made (KeyboardButtonSpec.text t) = key_of t ButtonType.default
key_made (KeyboardButtonSpec.request_phone t) = key_of t ButtonType.request_phone
key_made (KeyboardButtonSpec.request_geo t) = key_of t ButtonType.request_geo_location
key_made (KeyboardButtonSpec.request_poll t true) = key_of t (ButtonType.request_poll (some true))
key_made (KeyboardButtonSpec.request_poll t false) = key_of t (ButtonType.request_poll none)

module _ (b : Builders) (d : Documented b) where
  pub inline_button-fault :
      (spec : InlineButtonSpec)
      → inline_button b spec ≡ refused_or (inline_fault spec) (inline_made spec)
  unfolding inline_button label callback_data keeps_peer
  inline_button-fault (InlineButtonSpec.url [] u) = refl
  inline_button-fault (InlineButtonSpec.url (c ∷ t) u) = ap ok (d.url (c ∷ t) u)
  inline_button-fault (InlineButtonSpec.web_view [] u) = refl
  inline_button-fault (InlineButtonSpec.web_view (c ∷ t) u) = ap ok (d.webview (c ∷ t) u)
  inline_button-fault (InlineButtonSpec.callback [] p) = refl
  inline_button-fault (InlineButtonSpec.callback (c ∷ t) []) = refl
  inline_button-fault (InlineButtonSpec.callback (c ∷ t) (x ∷ p)) =
      elim (Bool-cases (ltb 64 (length (x ∷ p)))) [
        | inl long ↦ rw long
        | inr fits ↦ rw fits (ap ok (d.payload (c ∷ t) (x ∷ p)))
      ]
  inline_button-fault (InlineButtonSpec.switch_inline [] q same) = refl
  inline_button-fault (InlineButtonSpec.switch_inline (c ∷ t) q none) = ap ok (d.switch (c ∷ t) q)
  inline_button-fault (InlineButtonSpec.switch_inline (c ∷ t) q (some true)) =
      ap ok (d.switch (c ∷ t) q)
  inline_button-fault (InlineButtonSpec.switch_inline (c ∷ t) q (some false)) =
      ap ok (d.elsewhere (c ∷ t) q)

  pub keyboard_button-fault :
      (spec : KeyboardButtonSpec)
      → keyboard_button b spec ≡ refused_or (key_fault spec) (key_made spec)
  unfolding keyboard_button label
  keyboard_button-fault (KeyboardButtonSpec.text []) = refl
  keyboard_button-fault (KeyboardButtonSpec.text (c ∷ t)) = ap ok (d.text (c ∷ t))
  keyboard_button-fault (KeyboardButtonSpec.request_phone []) = refl
  keyboard_button-fault (KeyboardButtonSpec.request_phone (c ∷ t)) = ap ok (d.phone (c ∷ t))
  keyboard_button-fault (KeyboardButtonSpec.request_geo []) = refl
  keyboard_button-fault (KeyboardButtonSpec.request_geo (c ∷ t)) = ap ok (d.geo (c ∷ t))
  keyboard_button-fault (KeyboardButtonSpec.request_poll [] true) = refl
  keyboard_button-fault (KeyboardButtonSpec.request_poll [] false) = refl
  keyboard_button-fault (KeyboardButtonSpec.request_poll (c ∷ t) true) = ap ok (d.quiz (c ∷ t))
  keyboard_button-fault (KeyboardButtonSpec.request_poll (c ∷ t) false) = ap ok (d.poll (c ∷ t))
