-- ===== src/Markup/Documents.antt =====
-- native/src/dto/markup.rs: the documents of markups and buttons, and the projections to them.
use kotlogram.Base.{String, Bool, false, List, [], Option, none, some, map}
use kotlogram.Base.Int.{ℤ}
use kotlogram.Markup.Text.{Text, from_utf8}
use kotlogram.Markup.Layer.{
  InlineQueryPeerType, InlineButtonType, ButtonType, KeyboardInlineButton, KeyboardButton,
  KeyboardInlineButtonRow, KeyboardButtonRow, ReplyMarkup,
}

pub record ButtonDto : Type 0 where
  pub kind : String
  pub text : Text
  pub url : Option Text
  pub payload : Option Text
  pub requires_password : Option Bool
  pub fwd_text : Option Text
  pub button_id : Option ℤ
  pub query : Option Text
  pub same_peer : Option Bool
  pub peer_types : Option (List String)
  pub quiz : Option Bool
  pub user_id : Option ℤ
  pub copy_text : Option Text
  pub max_quantity : Option ℤ
  pub request_write_access : Option Bool

pub record ReplyMarkupDto : Type 0 where
  pub kind : String
  pub rows : List (List ButtonDto)
  pub fit_size : Bool
  pub single_use : Bool
  pub selective : Bool
  pub persistent : Bool
  pub placeholder : Option Text

-- ReplyMarkupDto::empty
unfoldable pub empty : String → ReplyMarkupDto
empty kind = record {
  kind = kind;
  rows = [];
  fit_size = false;
  single_use = false;
  selective = false;
  persistent = false;
  placeholder = none;
}

-- ButtonDto::of
unfoldable pub button_of : String → Text → ButtonDto
button_of kind text = record {
  kind = kind;
  text = text;
  url = none;
  payload = none;
  requires_password = none;
  fwd_text = none;
  button_id = none;
  query = none;
  same_peer = none;
  peer_types = none;
  quiz = none;
  user_id = none;
  copy_text = none;
  max_quantity = none;
  request_write_access = none;
}

unfoldable pub peer_type_name : InlineQueryPeerType → String
peer_type_name InlineQueryPeerType.same_bot_pm = "sameBotPm"
peer_type_name InlineQueryPeerType.pm = "pm"
peer_type_name InlineQueryPeerType.chat = "chat"
peer_type_name InlineQueryPeerType.megagroup = "megagroup"
peer_type_name InlineQueryPeerType.broadcast = "broadcast"
peer_type_name InlineQueryPeerType.bot_pm = "botPm"

-- button.peer_types.as_ref().map(…)
unfoldable pub peer_type_names : Option (List InlineQueryPeerType) → Option (List String)
peer_type_names none = none
peer_type_names (some types) = some (map peer_type_name types)

-- The match of `inline_button_dto` on the type of the button.
unfoldable pub inline_type_dto : Text → InlineButtonType → ButtonDto
inline_type_dto text (InlineButtonType.url u) = record (button_of "url" text) { url = some u }
inline_type_dto text (InlineButtonType.web_view u) = record (button_of "webView" text) {
  url = some u;
}
inline_type_dto text (InlineButtonType.callback password bytes) =
    record (button_of "callback" text) {
      payload = from_utf8 bytes;
      requires_password = some password;
    }
inline_type_dto text (InlineButtonType.switch_inline same q types) =
    record (button_of "switchInline" text) {
      query = some q;
      same_peer = some same;
      peer_types = peer_type_names types;
    }
inline_type_dto text InlineButtonType.game = button_of "game" text
inline_type_dto text InlineButtonType.buy = button_of "pay" text
inline_type_dto text (InlineButtonType.url_auth fwd u id) = record (button_of "urlAuth" text) {
  fwd_text = fwd;
  url = some u;
  button_id = some id;
}
inline_type_dto text (InlineButtonType.input_url_auth write fwd u) =
    record (button_of "inputUrlAuth" text) {
      fwd_text = fwd;
      url = some u;
      request_write_access = some write;
    }
inline_type_dto text (InlineButtonType.user_profile id) = record (button_of "userProfile" text) {
  user_id = some id;
}
inline_type_dto text InlineButtonType.input_user_profile = button_of "inputUserProfile" text
inline_type_dto text (InlineButtonType.copy copied) = record (button_of "copy" text) {
  copy_text = some copied;
}
inline_type_dto text InlineButtonType.disabled = button_of "disabled" text

unfoldable pub inline_button_dto : KeyboardInlineButton → ButtonDto
inline_button_dto button = inline_type_dto button.text button.button_type

-- The match of `keyboard_button_dto` on the type of the button.
unfoldable pub key_type_dto : Text → ButtonType → ButtonDto
key_type_dto text ButtonType.default = button_of "text" text
key_type_dto text ButtonType.request_phone = button_of "requestPhone" text
key_type_dto text ButtonType.request_geo_location = button_of "requestGeo" text
key_type_dto text (ButtonType.request_poll asked) = record (button_of "requestPoll" text) {
  quiz = asked;
}
key_type_dto text (ButtonType.request_peer id most) = record (button_of "requestPeer" text) {
  button_id = some id;
  max_quantity = some most;
}
key_type_dto text (ButtonType.input_request_peer id most) =
    record (button_of "inputRequestPeer" text) { button_id = some id; max_quantity = some most }
key_type_dto text (ButtonType.simple_web_view u) = record (button_of "simpleWebView" text) {
  url = some u;
}

unfoldable pub keyboard_button_dto : KeyboardButton → ButtonDto
keyboard_button_dto button = key_type_dto button.text button.button_type

unfoldable pub inline_rows_dto : List KeyboardInlineButtonRow → List (List ButtonDto)
inline_rows_dto rows = map (λ row. map inline_button_dto row.buttons) rows

unfoldable pub keyboard_rows_dto : List KeyboardButtonRow → List (List ButtonDto)
keyboard_rows_dto rows = map (λ row. map keyboard_button_dto row.buttons) rows

unfoldable pub reply_markup_dto : ReplyMarkup → ReplyMarkupDto
reply_markup_dto (ReplyMarkup.reply_inline_markup rows) = record (empty "inline") {
  rows = inline_rows_dto rows;
}
reply_markup_dto (ReplyMarkup.reply_keyboard_markup markup) = record (empty "keyboard") {
  rows = keyboard_rows_dto markup.rows;
  fit_size = markup.resize;
  single_use = markup.single_use;
  selective = markup.selective;
  persistent = markup.persistent;
  placeholder = markup.placeholder;
}
reply_markup_dto (ReplyMarkup.reply_keyboard_force_reply markup) = record (empty "forceReply") {
  single_use = markup.single_use;
  selective = markup.selective;
  placeholder = markup.placeholder;
}
reply_markup_dto (ReplyMarkup.reply_keyboard_hide selective) = record (empty "hide") {
  selective = selective;
}

-- `raw` is the layer's value itself.
unfoldable pub markup_dto : ReplyMarkup → ReplyMarkupDto
markup_dto markup = reply_markup_dto markup
