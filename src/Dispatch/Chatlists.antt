-- ===== src/Dispatch/Chatlists.antt =====
-- The operation names of native/src/ops/chatlists.rs and its `route`.
use kotlogram.Base.{String, Option, List, [], ◌∷◌}
use kotlogram.Dispatch.Handlers.{
  Handler, export_chatlist_invite, delete_exported_invite, edit_exported_invite,
  get_exported_invites, check_chatlist_invite, join_chatlist_invite, get_chatlist_updates,
  join_chatlist_updates, hide_chatlist_updates, get_leave_chatlist_suggestions, leave_chatlist,
}
use kotlogram.Dispatch.Table.{Table, match_arms}

abbrev pub operations : List String
operations =
    "chatlistsExportChatlistInvite" ∷ "chatlistsDeleteExportedInvite"
    ∷ "chatlistsEditExportedInvite" ∷ "chatlistsGetExportedInvites" ∷ "chatlistsCheckChatlistInvite"
    ∷ "chatlistsJoinChatlistInvite" ∷ "chatlistsGetChatlistUpdates" ∷ "chatlistsJoinChatlistUpdates"
    ∷ "chatlistsHideChatlistUpdates" ∷ "chatlistsGetLeaveChatlistSuggestions"
    ∷ "chatlistsLeaveChatlist" ∷ []

abbrev pub arms : Table Handler
arms =
    ("chatlistsExportChatlistInvite", export_chatlist_invite)
    ∷ ("chatlistsDeleteExportedInvite", delete_exported_invite)
    ∷ ("chatlistsEditExportedInvite", edit_exported_invite)
    ∷ ("chatlistsGetExportedInvites", get_exported_invites)
    ∷ ("chatlistsCheckChatlistInvite", check_chatlist_invite)
    ∷ ("chatlistsJoinChatlistInvite", join_chatlist_invite)
    ∷ ("chatlistsGetChatlistUpdates", get_chatlist_updates)
    ∷ ("chatlistsJoinChatlistUpdates", join_chatlist_updates)
    ∷ ("chatlistsHideChatlistUpdates", hide_chatlist_updates)
    ∷ ("chatlistsGetLeaveChatlistSuggestions", get_leave_chatlist_suggestions)
    ∷ ("chatlistsLeaveChatlist", leave_chatlist)
    ∷ []

unfoldable pub route : String → Option Handler
route operation = match_arms operation arms
