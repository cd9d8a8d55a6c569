-- ===== src/Markup/Specs.antt =====
-- The specifications of buttons and markups in native/src/payload.rs, as serde reads them, and the
-- payloads of the build operations in native/src/ops/markup.rs. An option that is absent from the
-- document is `false` here, which is serde's default.
use kotlogram.Base.{Bool, List, Option}
use kotlogram.Markup.Text.{Text}

pub data InlineButtonSpec : Type 0 where
  url : (text url : Text) → InlineButtonSpec
  web_view : (text url : Text) → InlineButtonSpec
  callback : (text payload : Text) → InlineButtonSpec
  switch_inline : (text query : Text) → (same_peer : Option Bool) → InlineButtonSpec

pub data KeyboardButtonSpec : Type 0 where
  text : (text : Text) → KeyboardButtonSpec
  request_phone : (text : Text) → KeyboardButtonSpec
  request_geo : (text : Text) → KeyboardButtonSpec
  request_poll : (text : Text) → (quiz : Bool) → KeyboardButtonSpec

pub data MarkupSpec : Type 0 where
  inline : (rows : List (List InlineButtonSpec)) → MarkupSpec
  keyboard :
      (rows : List (List KeyboardButtonSpec)) → (fit_size single_use selective : Bool) → MarkupSpec
  force_reply : (single_use selective : Bool) → MarkupSpec
  hide : (selective : Bool) → MarkupSpec

pub record InlineMarkupPayload : Type 0 where
  pub rows : List (List InlineButtonSpec)

pub record ReplyKeyboardPayload : Type 0 where
  pub rows : List (List KeyboardButtonSpec)
  pub fit_size : Bool
  pub single_use : Bool
  pub selective : Bool

pub record ForceReplyPayload : Type 0 where
  pub single_use : Bool
  pub selective : Bool

pub record HideKeyboardPayload : Type 0 where
  pub selective : Bool
