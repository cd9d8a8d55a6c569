-- ===== src/Dispatch/Markup.antt =====
-- The operation names of native/src/ops/markup.rs and its `route`.
use kotlogram.Base.{String, Option, List, [], ◌∷◌}
use kotlogram.Dispatch.Handlers.{
  Handler, get_reply_markup, build_inline_markup, build_reply_keyboard, build_force_reply,
  build_hide_keyboard,
}
use kotlogram.Dispatch.Table.{Table, match_arms}

abbrev pub operations : List String
operations =
    "getReplyMarkup" ∷ "buildInlineMarkup" ∷ "buildReplyKeyboard" ∷ "buildForceReply"
    ∷ "buildHideKeyboard" ∷ []

abbrev pub arms : Table Handler
arms =
    ("getReplyMarkup", get_reply_markup)
    ∷ ("buildInlineMarkup", build_inline_markup)
    ∷ ("buildReplyKeyboard", build_reply_keyboard)
    ∷ ("buildForceReply", build_force_reply)
    ∷ ("buildHideKeyboard", build_hide_keyboard)
    ∷ []

unfoldable pub route : String → Option Handler
route operation = match_arms operation arms
