-- ===== src/Markup/Grammers.antt =====
-- The builders of grammers_client::message that native/src/ops/markup.rs calls, and what grammers
-- documents of the values that they build. A `Button`, a `Key` and a `ReplyMarkup` of grammers wrap
-- the layer's value, which their `raw` field hands out.
use kotlogram.Base.{ℕ, ◌≡◌, Bool, true, false, List, none, some, map}
use kotlogram.Markup.Text.{Text}
use kotlogram.Markup.Layer.{
  InlineButtonType, ButtonType, KeyboardInlineButton, KeyboardButton, KeyboardInlineButtonRow,
  KeyboardButtonRow, ReplyKeyboardMarkup, ReplyKeyboardForceReply, ReplyMarkup,
}

pub record Builders : Type 0 where
  pub button_url : Text → Text → KeyboardInlineButton
  pub button_webview : Text → Text → KeyboardInlineButton
  pub button_data : Text → List ℕ → KeyboardInlineButton
  pub button_switch : Text → Text → KeyboardInlineButton
  pub button_switch_elsewhere : Text → Text → KeyboardInlineButton
  pub key_text : Text → KeyboardButton
  pub key_request_phone : Text → KeyboardButton
  pub key_request_geo : Text → KeyboardButton
  pub key_request_poll : Text → KeyboardButton
  pub key_request_quiz : Text → KeyboardButton
  pub from_buttons : List (List KeyboardInlineButton) → ReplyMarkup
  pub from_keys : List (List KeyboardButton) → ReplyMarkup
  pub force_reply : ReplyMarkup
  pub hide : ReplyMarkup
  pub fit_size : ReplyMarkup → ReplyMarkup
  pub single_use : ReplyMarkup → ReplyMarkup
  pub selective : ReplyMarkup → ReplyMarkup

abbrev pub inline_of : Text → InlineButtonType → KeyboardInlineButton
inline_of t b = record { text = t; button_type = b }

abbrev pub key_of : Text → ButtonType → KeyboardButton
key_of t b = record { text = t; button_type = b }

abbrev pub inline_row : List KeyboardInlineButton → KeyboardInlineButtonRow
inline_row bs = record { buttons = bs }

abbrev pub key_row : List KeyboardButton → KeyboardButtonRow
key_row bs = record { buttons = bs }

abbrev pub plain_keyboard : List (List KeyboardButton) → ReplyKeyboardMarkup
plain_keyboard rows = record {
  resize = false;
  single_use = false;
  selective = false;
  persistent = false;
  rows = map key_row rows;
  placeholder = none;
}

abbrev pub plain_force_reply : ReplyKeyboardForceReply
plain_force_reply = record { single_use = false; selective = false; placeholder = none }

-- Each button function builds the button of its name. A markup starts with every option cleared, and
-- an option that its shape has is set by the method of that name.
pub record Documented (b : Builders) : Type 0 where
  pub url : (t u : Text) → b.button_url t u ≡ inline_of t (InlineButtonType.url u)
  pub webview : (t u : Text) → b.button_webview t u ≡ inline_of t (InlineButtonType.web_view u)
  pub payload :
      (t : Text) (d : List ℕ) → b.button_data t d ≡ inline_of t (InlineButtonType.callback false d)
  pub switch :
      (t q : Text) → b.button_switch t q ≡ inline_of t (InlineButtonType.switch_inline true q none)
  pub elsewhere :
      (t q : Text)
      → b.button_switch_elsewhere t q ≡ inline_of t (InlineButtonType.switch_inline false q none)
  pub text : (t : Text) → b.key_text t ≡ key_of t ButtonType.default
  pub phone : (t : Text) → b.key_request_phone t ≡ key_of t ButtonType.request_phone
  pub geo : (t : Text) → b.key_request_geo t ≡ key_of t ButtonType.request_geo_location
  pub poll : (t : Text) → b.key_request_poll t ≡ key_of t (ButtonType.request_poll none)
  pub quiz : (t : Text) → b.key_request_quiz t ≡ key_of t (ButtonType.request_poll (some true))
  pub buttons :
      (rows : List (List KeyboardInlineButton))
      → b.from_buttons rows ≡ ReplyMarkup.reply_inline_markup (map inline_row rows)
  pub keys :
      (rows : List (List KeyboardButton))
      → b.from_keys rows ≡ ReplyMarkup.reply_keyboard_markup (plain_keyboard rows)
  pub force : b.force_reply ≡ ReplyMarkup.reply_keyboard_force_reply plain_force_reply
  pub hidden : b.hide ≡ ReplyMarkup.reply_keyboard_hide false
  pub fit_keyboard :
      (k : ReplyKeyboardMarkup)
      → b.fit_size (ReplyMarkup.reply_keyboard_markup k)
        ≡ ReplyMarkup.reply_keyboard_markup (record k { resize = true })
  pub single_keyboard :
      (k : ReplyKeyboardMarkup)
      → b.single_use (ReplyMarkup.reply_keyboard_markup k)
        ≡ ReplyMarkup.reply_keyboard_markup (record k { single_use = true })
  pub single_reply :
      (f : ReplyKeyboardForceReply)
      → b.single_use (ReplyMarkup.reply_keyboard_force_reply f)
        ≡ ReplyMarkup.reply_keyboard_force_reply (record f { single_use = true })
  pub selective_keyboard :
      (k : ReplyKeyboardMarkup)
      → b.selective (ReplyMarkup.reply_keyboard_markup k)
        ≡ ReplyMarkup.reply_keyboard_markup (record k { selective = true })
  pub selective_reply :
      (f : ReplyKeyboardForceReply)
      → b.selective (ReplyMarkup.reply_keyboard_force_reply f)
        ≡ ReplyMarkup.reply_keyboard_force_reply (record f { selective = true })
  pub selective_hide :
      (s : Bool)
      → b.selective (ReplyMarkup.reply_keyboard_hide s) ≡ ReplyMarkup.reply_keyboard_hide true
