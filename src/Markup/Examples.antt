-- ===== src/Markup/Examples.antt =====
-- Builders that keep to grammers' documents, and an inline keyboard of two rows.
use kotlogram.Base.{◌≡◌, refl, true, false, [], ◌∷◌, map, none, some, replicate}
use kotlogram.Error.{ok, err, empty_row, callback_data_too_long}
use kotlogram.Markup.Text.{Text, is_utf8, utf8_from}
use kotlogram.Markup.Specs.{InlineButtonSpec, MarkupSpec}
use kotlogram.Markup.Layer.{InlineButtonType, ButtonType, ReplyMarkup}
use kotlogram.Markup.Grammers.{
  Builders, Documented, inline_of, key_of, inline_row, plain_keyboard, plain_force_reply,
}
use kotlogram.Markup.Build.{
  label, callback_data, keeps_peer, build_row, checked_row, rows_from, build_rows, inline_button,
  inline_rows, reply_markup_from_spec,
}
use kotlogram.Markup.Contract.{refused_or, spec_fault, spec_document}
use kotlogram.Markup.Handlers.{build_document}
use kotlogram.Markup.Refinement.{markup_made, build_document-Refines}
use kotlogram.Markup.Sendable.{IsSendable, reply_markup_from_spec-IsSendable}

abbrev set_fit : ReplyMarkup → ReplyMarkup
set_fit (ReplyMarkup.reply_keyboard_markup k) =
    ReplyMarkup.reply_keyboard_markup (record k { resize = true })
set_fit other = other

abbrev set_single : ReplyMarkup → ReplyMarkup
set_single (ReplyMarkup.reply_keyboard_markup k) =
    ReplyMarkup.reply_keyboard_markup (record k { single_use = true })
set_single (ReplyMarkup.reply_keyboard_force_reply f) =
    ReplyMarkup.reply_keyboard_force_reply (record f { single_use = true })
set_single other = other

abbrev set_selective : ReplyMarkup → ReplyMarkup
set_selective (ReplyMarkup.reply_keyboard_markup k) =
    ReplyMarkup.reply_keyboard_markup (record k { selective = true })
set_selective (ReplyMarkup.reply_keyboard_force_reply f) =
    ReplyMarkup.reply_keyboard_force_reply (record f { selective = true })
set_selective (ReplyMarkup.reply_keyboard_hide s) = ReplyMarkup.reply_keyboard_hide true
set_selective (ReplyMarkup.reply_inline_markup rows) = ReplyMarkup.reply_inline_markup rows

abbrev builders : Builders
builders = record {
  button_url = λ t u. inline_of t (InlineButtonType.url u);
  button_webview = λ t u. inline_of t (InlineButtonType.web_view u);
  button_data = λ t d. inline_of t (InlineButtonType.callback false d);
  button_switch = λ t q. inline_of t (InlineButtonType.switch_inline true q none);
  button_switch_elsewhere = λ t q. inline_of t (InlineButtonType.switch_inline false q none);
  key_text = λ t. key_of t ButtonType.default;
  key_request_phone = λ t. key_of t ButtonType.request_phone;
  key_request_geo = λ t. key_of t ButtonType.request_geo_location;
  key_request_poll = λ t. key_of t (ButtonType.request_poll none);
  key_request_quiz = λ t. key_of t (ButtonType.request_poll (some true));
  from_buttons = λ rows. ReplyMarkup.reply_inline_markup (map inline_row rows);
  from_keys = λ rows. ReplyMarkup.reply_keyboard_markup (plain_keyboard rows);
  force_reply = ReplyMarkup.reply_keyboard_force_reply plain_force_reply;
  hide = ReplyMarkup.reply_keyboard_hide false;
  fit_size = set_fit;
  single_use = set_single;
  selective = set_selective;
}

documented : Documented builders
documented = record {
  url = λ t u. refl;
  webview = λ t u. refl;
  payload = λ t d. refl;
  switch = λ t q. refl;
  elsewhere = λ t q. refl;
  text = λ t. refl;
  phone = λ t. refl;
  geo = λ t. refl;
  poll = λ t. refl;
  quiz = λ t. refl;
  buttons = λ rows. refl;
  keys = λ rows. refl;
  force = refl;
  hidden = refl;
  fit_keyboard = λ k. refl;
  single_keyboard = λ k. refl;
  single_reply = λ f. refl;
  selective_keyboard = λ k. refl;
  selective_reply = λ f. refl;
  selective_hide = λ s. refl;
}

abbrev go : Text
go = b'g' ∷ b'o' ∷ []

-- A link beside a callback whose data is an e with an acute accent, and a switch to another peer.
abbrev two_rows : MarkupSpec
two_rows = MarkupSpec.inline (
    (InlineButtonSpec.url go go ∷ InlineButtonSpec.callback go (0xc3 ∷ 0xa9 ∷ []) ∷ [])
    ∷ (InlineButtonSpec.switch_inline go [] (some false) ∷ [])
    ∷ [])

e_acute : is_utf8 (0xc3 ∷ 0xa9 ∷ []) ≡ true
unfolding is_utf8 utf8_from
e_acute = refl

-- A surrogate is no character.
surrogate : is_utf8 (0xed ∷ 0xa0 ∷ 0x80 ∷ []) ≡ false
unfolding is_utf8 utf8_from
surrogate = refl

-- A button's data may fill the limit, and no more.
full_data : callback_data (replicate 64 b'x') ≡ ok (replicate 64 b'x')
unfolding callback_data
full_data = refl

too_long : callback_data (replicate 65 b'x') ≡ err (callback_data_too_long 65)
unfolding callback_data
too_long = refl

-- The second row is the one without buttons.
second_row :
    reply_markup_from_spec builders
      (MarkupSpec.inline ((InlineButtonSpec.url go go ∷ []) ∷ [] ∷ []))
    ≡ err (empty_row 1)
unfolding reply_markup_from_spec inline_rows build_rows rows_from checked_row build_row
    inline_button label
second_row = refl

build_document-Refines_example :
    build_document builders two_rows ≡ refused_or (spec_fault two_rows) (spec_document two_rows)
build_document-Refines_example =
    build_document-Refines builders documented two_rows ((tt, (e_acute, tt)), ((tt, tt), tt))

two_rows_built : reply_markup_from_spec builders two_rows ≡ ok (markup_made two_rows)
unfolding reply_markup_from_spec inline_rows build_rows rows_from checked_row build_row
    inline_button label callback_data keeps_peer
two_rows_built = refl

reply_markup_from_spec-IsSendable_example : IsSendable (markup_made two_rows)
reply_markup_from_spec-IsSendable_example =
    reply_markup_from_spec-IsSendable builders documented two_rows (markup_made two_rows)
      two_rows_built
