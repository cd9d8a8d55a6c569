-- ===== src/Dispatch/Chats.antt =====
-- The operation names of native/src/ops/chats.rs and its `route`.
use kotlogram.Base.{String, Option, List, [], ◌∷◌}
use kotlogram.Dispatch.Handlers.{
  Handler, get_participants, kick_participant, invite_to_channel, join_chat, leave_chat,
  get_permissions, set_banned_rights, set_admin_rights, accept_invite_link, parse_invite_link,
  resolve_peer_by_id,
}
use kotlogram.Dispatch.Table.{Table, match_arms}

abbrev pub operations : List String
operations =
    "getParticipants" ∷ "kickParticipant" ∷ "inviteToChannel" ∷ "joinChat" ∷ "leaveChat"
    ∷ "getPermissions" ∷ "setBannedRights" ∷ "setAdminRights" ∷ "acceptInviteLink"
    ∷ "parseInviteLink" ∷ "resolvePeer" ∷ []

abbrev pub arms : Table Handler
arms =
    ("getParticipants", get_participants)
    ∷ ("kickParticipant", kick_participant)
    ∷ ("inviteToChannel", invite_to_channel)
    ∷ ("joinChat", join_chat)
    ∷ ("leaveChat", leave_chat)
    ∷ ("getPermissions", get_permissions)
    ∷ ("setBannedRights", set_banned_rights)
    ∷ ("setAdminRights", set_admin_rights)
    ∷ ("acceptInviteLink", accept_invite_link)
    ∷ ("parseInviteLink", parse_invite_link)
    ∷ ("resolvePeer", resolve_peer_by_id)
    ∷ []

unfoldable pub route : String → Option Handler
route operation = match_arms operation arms
