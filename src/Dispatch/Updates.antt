-- ===== src/Dispatch/Updates.antt =====
-- The operation names of native/src/ops/updates.rs and its `route`.
use kotlogram.Base.{String, Option, List, [], ◌∷◌}
use kotlogram.Dispatch.Handlers.{
  Handler, next_update, next_raw_update, sync_update_state, answer_guest_chat_query,
}
use kotlogram.Dispatch.Table.{Table, match_arms}

abbrev pub operations : List String
operations = "nextUpdate" ∷ "nextRawUpdate" ∷ "syncUpdateState" ∷ "answerGuestChatQuery" ∷ []

abbrev pub arms : Table Handler
arms =
    ("nextUpdate", next_update)
    ∷ ("nextRawUpdate", next_raw_update)
    ∷ ("syncUpdateState", sync_update_state)
    ∷ ("answerGuestChatQuery", answer_guest_chat_query)
    ∷ []

unfoldable pub route : String → Option Handler
route operation = match_arms operation arms
