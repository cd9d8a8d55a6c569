-- ===== src/Markup/Layer.antt =====
-- The layer's markups, as the schema of kotlogramme-kotlin/src/main/resources/raw declares them and
-- native/src/dto/markup.rs matches on them. Left out are the fields that nothing here reads: the
-- style of a button, the users and bots that an input variant names, and the peers that a request
-- asks for.
use kotlogram.Base.{ℕ, Bool, List, Option}
use kotlogram.Base.Int.{ℤ}
use kotlogram.Markup.Text.{Text}

pub data InlineQueryPeerType : Type 0 where
  same_bot_pm pm chat megagroup broadcast bot_pm : InlineQueryPeerType

pub data InlineButtonType : Type 0 where
  url : (url : Text) → InlineButtonType
  web_view : (url : Text) → InlineButtonType
  callback : (requires_password : Bool) → (payload : List ℕ) → InlineButtonType
  switch_inline :
      (same_peer : Bool)
      → (query : Text) → (peer_types : Option (List InlineQueryPeerType)) → InlineButtonType
  game buy : InlineButtonType
  url_auth : (fwd_text : Option Text) → (url : Text) → (button_id : ℤ) → InlineButtonType
  input_url_auth :
      (request_write_access : Bool) → (fwd_text : Option Text) → (url : Text) → InlineButtonType
  user_profile : (user_id : ℤ) → InlineButtonType
  input_user_profile : InlineButtonType
  copy : (copy_text : Text) → InlineButtonType
  disabled : InlineButtonType

pub data ButtonType : Type 0 where
  default request_phone request_geo_location : ButtonType
  request_poll : (quiz : Option Bool) → ButtonType
  request_peer : (button_id max_quantity : ℤ) → ButtonType
  input_request_peer : (button_id max_quantity : ℤ) → ButtonType
  simple_web_view : (url : Text) → ButtonType

pub record KeyboardInlineButton : Type 0 where
  pub text : Text
  pub button_type : InlineButtonType

pub record KeyboardButton : Type 0 where
  pub text : Text
  pub button_type : ButtonType

pub record KeyboardInlineButtonRow : Type 0 where
  pub buttons : List KeyboardInlineButton

pub record KeyboardButtonRow : Type 0 where
  pub buttons : List KeyboardButton

pub record ReplyKeyboardMarkup : Type 0 where
  pub resize : Bool
  pub single_use : Bool
  pub selective : Bool
  pub persistent : Bool
  pub rows : List KeyboardButtonRow
  pub placeholder : Option Text

pub record ReplyKeyboardForceReply : Type 0 where
  pub single_use : Bool
  pub selective : Bool
  pub placeholder : Option Text

pub data ReplyMarkup : Type 0 where
  reply_inline_markup : (rows : List KeyboardInlineButtonRow) → ReplyMarkup
  reply_keyboard_markup : ReplyKeyboardMarkup → ReplyMarkup
  reply_keyboard_force_reply : ReplyKeyboardForceReply → ReplyMarkup
  reply_keyboard_hide : (selective : Bool) → ReplyMarkup
