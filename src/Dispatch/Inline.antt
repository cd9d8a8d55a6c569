-- ===== src/Dispatch/Inline.antt =====
-- The operation names of native/src/ops/inline.rs and its `route`.
use kotlogram.Base.{String, Option, List, [], ◌∷◌}
use kotlogram.Dispatch.Handlers.{
  Handler, inline_query, answer_callback_query, answer_inline_query, send_inline_bot_result,
  edit_inline_message,
}
use kotlogram.Dispatch.Table.{Table, match_arms}

abbrev pub operations : List String
operations =
    "inlineQuery" ∷ "answerCallbackQuery" ∷ "answerInlineQuery" ∷ "sendInlineBotResult"
    ∷ "editInlineMessage" ∷ []

abbrev pub arms : Table Handler
arms =
    ("inlineQuery", inline_query)
    ∷ ("answerCallbackQuery", answer_callback_query)
    ∷ ("answerInlineQuery", answer_inline_query)
    ∷ ("sendInlineBotResult", send_inline_bot_result)
    ∷ ("editInlineMessage", edit_inline_message)
    ∷ []

unfoldable pub route : String → Option Handler
route operation = match_arms operation arms
