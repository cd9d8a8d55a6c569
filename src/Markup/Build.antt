-- ===== src/Markup/Build.antt =====
-- native/src/ops/markup.rs: the markup that a specification names, with the checks of its rows, labels
-- and callback data.
use kotlogram.Base.{ℕ, suc, Bool, List, [], ◌∷◌, Option, none, some, if◌then◌else◌, ltb, length}
use kotlogram.Error.{
  Result, ok, err, ◌>>=◌, no_rows, empty_row, empty_label, empty_callback_data,
  callback_data_too_long,
}
use kotlogram.Markup.Text.{Text}
use kotlogram.Markup.Specs.{InlineButtonSpec, KeyboardButtonSpec, MarkupSpec}
use kotlogram.Markup.Layer.{KeyboardInlineButton, KeyboardButton, ReplyMarkup}
use kotlogram.Markup.Grammers.{Builders}

-- CALLBACK_DATA_LIMIT
abbrev pub callback_data_limit : ℕ
callback_data_limit = 64

unfoldable pub label : Text → Result Text
label [] = err empty_label
label (c ∷ text) = ok (c ∷ text)

unfoldable pub callback_data : Text → Result (List ℕ)
callback_data [] = err empty_callback_data
callback_data (c ∷ payload) =
    if ltb callback_data_limit (length (c ∷ payload))
    then err (callback_data_too_long (length (c ∷ payload)))
    else ok (c ∷ payload)

-- same_peer.unwrap_or(true)
unfoldable pub keeps_peer : Option Bool → Bool
keeps_peer none = Bool.true
keeps_peer (some same_peer) = same_peer

module _ {ℓ κ} {T : Type ℓ} {U : Type κ} (build : (T → Result U)) where
  -- row.iter().map(build).collect()
  unfoldable pub build_row : List T → Result (List U)
  build_row [] = ok []
  build_row (spec ∷ specs) = do
    button ← build spec
    buttons ← build_row specs
    ok (button ∷ buttons)

  unfoldable pub checked_row : ℕ → List T → Result (List U)
  checked_row index [] = err (empty_row index)
  checked_row index (spec ∷ row) = build_row (spec ∷ row)

  -- The rows from the one at `index` on.
  unfoldable pub rows_from : ℕ → List (List T) → Result (List (List U))
  rows_from index [] = ok []
  rows_from index (row ∷ specs) = do
    buttons ← checked_row index row
    rows ← rows_from (suc index) specs
    ok (buttons ∷ rows)

  unfoldable pub build_rows : List (List T) → Result (List (List U))
  build_rows [] = err no_rows
  build_rows (row ∷ specs) = rows_from 0 (row ∷ specs)

module _ (b : Builders) where
  unfoldable pub inline_button : InlineButtonSpec → Result KeyboardInlineButton
  inline_button (InlineButtonSpec.url text url) = do text ← label text; ok (b.button_url text url)
  inline_button (InlineButtonSpec.web_view text url) = do
    text ← label text
    ok (b.button_webview text url)
  inline_button (InlineButtonSpec.callback text payload) = do
    text ← label text
    bytes ← callback_data payload
    ok (b.button_data text bytes)
  inline_button (InlineButtonSpec.switch_inline text query same_peer) = do
    text ← label text
    ok (
        if keeps_peer same_peer
        then b.button_switch text query
        else b.button_switch_elsewhere text query)

  unfoldable pub keyboard_button : KeyboardButtonSpec → Result KeyboardButton
  keyboard_button (KeyboardButtonSpec.text text) = do text ← label text; ok (b.key_text text)
  keyboard_button (KeyboardButtonSpec.request_phone text) = do
    text ← label text
    ok (b.key_request_phone text)
  keyboard_button (KeyboardButtonSpec.request_geo text) = do
    text ← label text
    ok (b.key_request_geo text)
  keyboard_button (KeyboardButtonSpec.request_poll text quiz) = do
    text ← label text
    ok (if quiz then b.key_request_quiz text else b.key_request_poll text)

  unfoldable pub inline_rows :
      List (List InlineButtonSpec) → Result (List (List KeyboardInlineButton))
  inline_rows specs = build_rows inline_button specs

  unfoldable pub keyboard_rows :
      List (List KeyboardButtonSpec) → Result (List (List KeyboardButton))
  keyboard_rows specs = build_rows keyboard_button specs

  unfoldable pub reply_keyboard_markup :
      Bool → Bool → Bool → List (List KeyboardButton) → ReplyMarkup
  reply_keyboard_markup fit_size single_use selective rows =
      let markup = b.from_keys rows in
      let markup = if fit_size then b.fit_size markup else markup in
      let markup = if single_use then b.single_use markup else markup in
      if selective then b.selective markup else markup

  unfoldable pub force_reply_markup : Bool → Bool → ReplyMarkup
  force_reply_markup single_use selective =
      let markup = b.force_reply in
      let markup = if single_use then b.single_use markup else markup in
      if selective then b.selective markup else markup

  unfoldable pub hide_keyboard_markup : Bool → ReplyMarkup
  hide_keyboard_markup selective =
      let markup = b.hide in if selective then b.selective markup else markup

  unfoldable pub reply_markup_from_spec : MarkupSpec → Result ReplyMarkup
  reply_markup_from_spec (MarkupSpec.inline rows) = do
    buttons ← inline_rows rows
    ok (b.from_buttons buttons)
  reply_markup_from_spec (MarkupSpec.keyboard rows fit_size single_use selective) = do
    keys ← keyboard_rows rows
    ok (reply_keyboard_markup fit_size single_use selective keys)
  reply_markup_from_spec (MarkupSpec.force_reply single_use selective) =
      ok (force_reply_markup single_use selective)
  reply_markup_from_spec (MarkupSpec.hide selective) = ok (hide_keyboard_markup selective)
