-- ===== src/Chats.antt =====
-- The chat operations of native/src/ops/chats.rs that decide what is sent: `set_banned_rights`,
-- `set_admin_rights` and `peer_id_from_bot_api_id`. grammers' peers and calls are arguments.
pub mod Types
pub mod Rights
pub mod Requests
pub mod PeerIds
mod Examples
use kotlogram.Base.{ℕ, Bool, true, false, ◌&&◌, ◌||◌, not, List, Option, none, some, if◌then◌else◌}
use kotlogram.Base.Int.{ℤ, pos, negsuc, neg, ◌-ℤ◌, in_range}
use kotlogram.Error.{
  Error, Result, ok, err, ok_or, ◌>>=◌, chat_invalid, peer_id_invalid, not_a_peer_id,
}
use kotlogram.Chats.Types.{
  ChatAdminRights, ChatBannedRights, ChatPermissionsDto, ChatRestrictionsDto,
}
use kotlogram.Chats.Rights.{
  admin_rights_of, banned_rights_of, merge_admin, merge_banned, basic_group_promote,
}

pub data PeerKind : Type 0 where
  user chat channel : PeerKind

abbrev pub is_channel : PeerKind → Bool
is_channel channel = true
is_channel other = false

-- The calls that change a member's rights. A rank is the bytes of its text.
pub data Request : Type 0 where
  edit_banned : ChatBannedRights → Request
  delete_chat_user : Request
  edit_admin : ChatAdminRights → List ℕ → Request
  edit_chat_admin : Bool → Request

-- The rights to send: `loaded` is what `load_channel_banned` answers, asked only where it is used.
unfoldable pub banned_rights :
    PeerKind → Bool → Result (Option ChatBannedRights) → ChatBannedRights → Result ChatBannedRights
banned_rights kind load_current loaded requested =
    if load_current && is_channel kind
    then (loaded >>= λ current. elim current [
      | some held ↦ ok (merge_banned held requested)
      | none ↦ ok requested
    ])
    else ok requested

unfoldable pub banned_request : PeerKind → ChatBannedRights → Result Request
banned_request channel rights = ok (edit_banned rights)
banned_request chat rights =
    if not rights.view_messages then err chat_invalid else ok delete_chat_user
banned_request user rights = err peer_id_invalid

unfoldable pub set_banned_rights :
    (Request → Result (Unit {0}))
    → PeerKind
    → Bool
    → Result (Option ChatBannedRights)
    → ChatRestrictionsDto
    → Result (Unit {0})
set_banned_rights invoke kind load_current loaded dto = do
  rights ← banned_rights kind load_current loaded (banned_rights_of dto)
  request ← banned_request kind rights
  invoke request

unfoldable pub admin_rights :
    PeerKind → Bool → Result (Option ChatAdminRights) → ChatAdminRights → Result ChatAdminRights
admin_rights kind load_current loaded requested =
    if load_current && is_channel kind
    then (loaded >>= λ current. elim current [
      | some held ↦ ok (merge_admin held requested)
      | none ↦ ok requested
    ])
    else ok requested

unfoldable pub admin_request : PeerKind → ChatAdminRights → List ℕ → Result Request
admin_request channel rights rank = ok (edit_admin rights rank)
admin_request chat rights rank = ok (edit_chat_admin (basic_group_promote rights))
admin_request user rights rank = err peer_id_invalid

unfoldable pub set_admin_rights :
    (Request → Result (Unit {0}))
    → PeerKind
    → Bool
    → Result (Option ChatAdminRights)
    → ChatPermissionsDto
    → List ℕ
    → Result (Unit {0})
set_admin_rights invoke kind load_current loaded dto rank = do
  rights ← admin_rights kind load_current loaded (admin_rights_of dto)
  request ← admin_request kind rights rank
  invoke request

-- grammers' constructors of a peer id from a bare id.
module _ {PeerId : Type 0} (make : PeerKind → ℤ → Option PeerId) where
  unfoldable pub peer_id_from_bot_api_id : ℤ → Result PeerId
  peer_id_from_bot_api_id id =
      if in_range (pos 1) (pos 0xffffffffff) id
      then ok_or (make user id) (not_a_peer_id id)
      else if in_range (neg (pos 999999999999)) (neg (pos 1)) id
      then ok_or (make chat (neg id)) (not_a_peer_id id)
      else if in_range (neg (pos 1997852516352)) (neg (pos 1000000000001)) id
          || in_range (neg (pos 2002147483649)) (neg (pos 4000000000000)) id
      then ok_or (make channel (neg id -ℤ pos 1000000000000)) (not_a_peer_id id)
      else err (not_a_peer_id id)
