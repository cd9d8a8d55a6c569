-- ===== src/Dispatch/Actions.antt =====
-- The operation names of native/src/ops/actions.rs and its `route`.
use kotlogram.Base.{String, Option, List, [], ◌∷◌}
use kotlogram.Dispatch.Handlers.{Handler, send_chat_action, get_message_action}
use kotlogram.Dispatch.Table.{Table, match_arms}

abbrev pub operations : List String
operations = "sendChatAction" ∷ "getMessageAction" ∷ []

abbrev pub arms : Table Handler
arms = ("sendChatAction", send_chat_action) ∷ ("getMessageAction", get_message_action) ∷ []

unfoldable pub route : String → Option Handler
route operation = match_arms operation arms
