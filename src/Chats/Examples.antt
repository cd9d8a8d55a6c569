-- ===== src/Chats/Examples.antt =====
-- A ban until five seconds before the epoch, a grant of every right, and three dialog ids.
use kotlogram.Base.{◌≡◌, true, false, [], Option, none, some, arith}
use kotlogram.Base.Int.{ℤ, pos, negsuc, neg}
use kotlogram.Error.{Result, ok, err, ok_or, not_a_peer_id}
use kotlogram.Chats.Types.{
  ChatAdminRights, ChatBannedRights, ChatPermissionsDto, ChatRestrictionsDto,
}
use kotlogram.Chats.Rights.{restrictions_of, banned_rights_of}
use kotlogram.Chats.{
  PeerKind, channel, Request, set_banned_rights, set_admin_rights, peer_id_from_bot_api_id,
}
use kotlogram.Chats.Requests.{
  set_banned_rights-loaded, set_admin_rights-loaded, banned_rights_of-restrictions_of,
}
use kotlogram.Chats.PeerIds.{
  bot_api_dialog_id, peer_id_from_bot_api_id-encoded, peer_id_from_bot_api_id-monoforum,
}

abbrev a_ban : ChatBannedRights
a_ban = record {
  view_messages = true;
  send_messages = true;
  send_media = true;
  send_stickers = true;
  send_gifs = true;
  send_games = true;
  send_inline = true;
  embed_links = true;
  send_polls = true;
  change_info = true;
  invite_users = true;
  pin_messages = true;
  manage_topics = true;
  send_photos = true;
  send_videos = true;
  send_roundvideos = true;
  send_audios = true;
  send_voices = true;
  send_docs = false;
  send_plain = true;
  edit_rank = true;
  send_reactions = true;
  manage_linked_peers = true;
  until_date = negsuc 4;
}

abbrev a_ban_document : ChatRestrictionsDto
a_ban_document = record {
  view_messages = true;
  send_messages = false;
  send_media = false;
  send_stickers = false;
  send_gifs = false;
  send_games = false;
  send_inline = false;
  embed_links = false;
  send_polls = false;
  change_info = false;
  invite_users = false;
  pin_messages = false;
  manage_topics = false;
  send_photos = false;
  send_videos = false;
  send_roundvideos = false;
  send_audios = false;
  send_voices = false;
  send_docs = false;
  send_plain = false;
  edit_rank = false;
  send_reactions = false;
  manage_linked_peers = false;
  until_date = pos 1999;
}

abbrev a_grant : ChatAdminRights
a_grant = record {
  change_info = true;
  post_messages = true;
  edit_messages = true;
  delete_messages = true;
  ban_users = true;
  invite_users = true;
  pin_messages = true;
  add_admins = true;
  anonymous = true;
  manage_call = true;
  other = true;
  manage_topics = true;
  post_stories = true;
  edit_stories = true;
  delete_stories = true;
  manage_direct_messages = true;
  manage_ranks = true;
  manage_linked_peers = true;
  manage_welcome_messages = true;
}

abbrev a_grant_document : ChatPermissionsDto
a_grant_document = record {
  change_info = false;
  post_messages = false;
  edit_messages = false;
  delete_messages = false;
  ban_users = false;
  invite_users = false;
  pin_messages = false;
  add_admins = true;
  anonymous = false;
  manage_call = false;
  manage_topics = false;
  post_stories = false;
  edit_stories = false;
  delete_stories = false;
  manage_direct_messages = false;
  manage_ranks = false;
  manage_linked_peers = false;
  manage_welcome_messages = false;
  other = false;
}

abbrev accepts : Request → Result (Unit {0})
accepts request = ok tt

set_banned_rights-loaded_example :
    set_banned_rights accepts channel true (ok (some a_ban)) a_ban_document
    ≡ set_banned_rights accepts channel false (ok none) a_ban_document
set_banned_rights-loaded_example =
    set_banned_rights-loaded accepts channel (some a_ban) (ok none) a_ban_document

set_admin_rights-loaded_example :
    set_admin_rights accepts channel true (ok (some a_grant)) a_grant_document []
    ≡ set_admin_rights accepts channel false (ok none) a_grant_document []
set_admin_rights-loaded_example =
    set_admin_rights-loaded accepts channel (some a_grant) (ok none) a_grant_document []

banned_rights_of-restrictions_of_example : banned_rights_of (restrictions_of a_ban) ≡ a_ban
banned_rights_of-restrictions_of_example = banned_rights_of-restrictions_of a_ban (omega arith)

abbrev bare : PeerKind → ℤ → Option ℤ
bare kind id = some id

peer_id_from_bot_api_id-encoded_example :
    peer_id_from_bot_api_id bare (bot_api_dialog_id channel 7)
    ≡ ok_or (bare channel (pos 7)) (not_a_peer_id (bot_api_dialog_id channel 7))
peer_id_from_bot_api_id-encoded_example =
    peer_id_from_bot_api_id-encoded bare channel 7 (omega arith) (omega arith)

peer_id_from_bot_api_id-monoforum_example :
    peer_id_from_bot_api_id bare (neg (pos 3000000000000))
    ≡ err (not_a_peer_id (neg (pos 3000000000000)))
peer_id_from_bot_api_id-monoforum_example =
    peer_id_from_bot_api_id-monoforum bare 3000000000000 (omega arith) (omega arith)
