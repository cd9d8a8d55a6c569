-- ===== src/Dispatch/Messages.antt =====
-- The operation names of native/src/ops/messages.rs and its `route`.
use kotlogram.Base.{String, Option, List, [], ◌∷◌}
use kotlogram.Dispatch.Handlers.{
  Handler, send_message, send_file, send_album, edit_message, delete_messages, get_history,
  get_history_total, get_chat_photos, get_messages, get_reply_to_message, search_messages,
  search_messages_total, search_all_messages, search_all_messages_total, forward_messages,
  get_pinned_message, pin_message, unpin_message, unpin_all_messages, send_reaction,
}
use kotlogram.Dispatch.Table.{Table, match_arms}

abbrev pub operations : List String
operations =
    "sendMessage" ∷ "sendFile" ∷ "sendAlbum" ∷ "editMessage" ∷ "deleteMessages" ∷ "getHistory"
    ∷ "getHistoryTotal" ∷ "getChatPhotos" ∷ "getMessages" ∷ "getReplyToMessage" ∷ "searchMessages"
    ∷ "searchMessagesTotal" ∷ "searchAllMessages" ∷ "searchAllMessagesTotal" ∷ "forwardMessages"
    ∷ "getPinnedMessage" ∷ "pinMessage" ∷ "unpinMessage" ∷ "unpinAllMessages" ∷ "sendReaction" ∷ []

abbrev pub arms : Table Handler
arms =
    ("sendMessage", send_message)
    ∷ ("sendFile", send_file)
    ∷ ("sendAlbum", send_album)
    ∷ ("editMessage", edit_message)
    ∷ ("deleteMessages", delete_messages)
    ∷ ("getHistory", get_history)
    ∷ ("getHistoryTotal", get_history_total)
    ∷ ("getChatPhotos", get_chat_photos)
    ∷ ("getMessages", get_messages)
    ∷ ("getReplyToMessage", get_reply_to_message)
    ∷ ("searchMessages", search_messages)
    ∷ ("searchMessagesTotal", search_messages_total)
    ∷ ("searchAllMessages", search_all_messages)
    ∷ ("searchAllMessagesTotal", search_all_messages_total)
    ∷ ("forwardMessages", forward_messages)
    ∷ ("getPinnedMessage", get_pinned_message)
    ∷ ("pinMessage", pin_message)
    ∷ ("unpinMessage", unpin_message)
    ∷ ("unpinAllMessages", unpin_all_messages)
    ∷ ("sendReaction", send_reaction)
    ∷ []

unfoldable pub route : String → Option Handler
route operation = match_arms operation arms
