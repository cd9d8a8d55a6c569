-- ===== src/Chats/Rights.antt =====
-- The conversions between the layer's rights and their documents (native/src/dto/permissions.rs), and
-- `merge_admin`, `merge_banned` and `basic_group_promote` of native/src/ops/chats.rs. A date is an `i32`
-- of seconds on the layer's side and an `i64` of milliseconds in a document; their arithmetic stays far
-- inside 64 bits.
use kotlogram.Base.{◌-◌, ◌%◌, ◌^◌, Bool, ◌||◌, ltb, if◌then◌else◌}
use kotlogram.Chats.Types.{
  ChatAdminRights, ChatBannedRights, ChatPermissionsDto, ChatRestrictionsDto,
}
use kotlogram.Base.Int.{ℤ, pos, negsuc}
use kotlogram.Base.Dates.{to_millis, div_thousand}

-- An `i64` as an `i32`, which keeps the low 32 bits.
unfoldable pub as_i32 : ℤ → ℤ
as_i32 (pos n) =
    let low = n % 2 ^ 32 in if ltb low (2 ^ 31) then pos low else negsuc (2 ^ 32 - 1 - low)
as_i32 (negsuc n) =
    let low = n % 2 ^ 32 in if ltb low (2 ^ 31) then negsuc low else pos (2 ^ 32 - 1 - low)

-- impl From<&tl::types::ChatAdminRights> for ChatPermissionsDto
unfoldable pub permissions_of : ChatAdminRights → ChatPermissionsDto
permissions_of rights = record {
  change_info = rights.change_info;
  post_messages = rights.post_messages;
  edit_messages = rights.edit_messages;
  delete_messages = rights.delete_messages;
  ban_users = rights.ban_users;
  invite_users = rights.invite_users;
  pin_messages = rights.pin_messages;
  add_admins = rights.add_admins;
  anonymous = rights.anonymous;
  manage_call = rights.manage_call;
  manage_topics = rights.manage_topics;
  post_stories = rights.post_stories;
  edit_stories = rights.edit_stories;
  delete_stories = rights.delete_stories;
  manage_direct_messages = rights.manage_direct_messages;
  manage_ranks = rights.manage_ranks;
  manage_linked_peers = rights.manage_linked_peers;
  manage_welcome_messages = rights.manage_welcome_messages;
  other = rights.other;
}

-- impl From<&ChatPermissionsDto> for tl::types::ChatAdminRights
unfoldable pub admin_rights_of : ChatPermissionsDto → ChatAdminRights
admin_rights_of rights = record {
  change_info = rights.change_info;
  post_messages = rights.post_messages;
  edit_messages = rights.edit_messages;
  delete_messages = rights.delete_messages;
  ban_users = rights.ban_users;
  invite_users = rights.invite_users;
  pin_messages = rights.pin_messages;
  add_admins = rights.add_admins;
  anonymous = rights.anonymous;
  manage_call = rights.manage_call;
  other = rights.other;
  manage_topics = rights.manage_topics;
  post_stories = rights.post_stories;
  edit_stories = rights.edit_stories;
  delete_stories = rights.delete_stories;
  manage_direct_messages = rights.manage_direct_messages;
  manage_ranks = rights.manage_ranks;
  manage_linked_peers = rights.manage_linked_peers;
  manage_welcome_messages = rights.manage_welcome_messages;
}

-- impl From<&tl::types::ChatBannedRights> for ChatRestrictionsDto
unfoldable pub restrictions_of : ChatBannedRights → ChatRestrictionsDto
restrictions_of rights = record {
  view_messages = rights.view_messages;
  send_messages = rights.send_messages;
  send_media = rights.send_media;
  send_stickers = rights.send_stickers;
  send_gifs = rights.send_gifs;
  send_games = rights.send_games;
  send_inline = rights.send_inline;
  embed_links = rights.embed_links;
  send_polls = rights.send_polls;
  change_info = rights.change_info;
  invite_users = rights.invite_users;
  pin_messages = rights.pin_messages;
  manage_topics = rights.manage_topics;
  send_photos = rights.send_photos;
  send_videos = rights.send_videos;
  send_roundvideos = rights.send_roundvideos;
  send_audios = rights.send_audios;
  send_voices = rights.send_voices;
  send_docs = rights.send_docs;
  send_plain = rights.send_plain;
  edit_rank = rights.edit_rank;
  send_reactions = rights.send_reactions;
  manage_linked_peers = rights.manage_linked_peers;
  until_date = to_millis rights.until_date;
}

-- impl From<&ChatRestrictionsDto> for tl::types::ChatBannedRights
unfoldable pub banned_rights_of : ChatRestrictionsDto → ChatBannedRights
banned_rights_of rights = record {
  view_messages = rights.view_messages;
  send_messages = rights.send_messages;
  send_media = rights.send_media;
  send_stickers = rights.send_stickers;
  send_gifs = rights.send_gifs;
  send_games = rights.send_games;
  send_inline = rights.send_inline;
  embed_links = rights.embed_links;
  send_polls = rights.send_polls;
  change_info = rights.change_info;
  invite_users = rights.invite_users;
  pin_messages = rights.pin_messages;
  manage_topics = rights.manage_topics;
  send_photos = rights.send_photos;
  send_videos = rights.send_videos;
  send_roundvideos = rights.send_roundvideos;
  send_audios = rights.send_audios;
  send_voices = rights.send_voices;
  send_docs = rights.send_docs;
  send_plain = rights.send_plain;
  edit_rank = rights.edit_rank;
  send_reactions = rights.send_reactions;
  manage_linked_peers = rights.manage_linked_peers;
  until_date = as_i32 (div_thousand rights.until_date);
}

unfoldable pub merge_admin : ChatAdminRights → ChatAdminRights → ChatAdminRights
merge_admin current requested = record current {
  change_info = requested.change_info;
  post_messages = requested.post_messages;
  edit_messages = requested.edit_messages;
  delete_messages = requested.delete_messages;
  ban_users = requested.ban_users;
  invite_users = requested.invite_users;
  pin_messages = requested.pin_messages;
  add_admins = requested.add_admins;
  anonymous = requested.anonymous;
  manage_call = requested.manage_call;
  other = requested.other;
  manage_topics = requested.manage_topics;
  post_stories = requested.post_stories;
  edit_stories = requested.edit_stories;
  delete_stories = requested.delete_stories;
  manage_direct_messages = requested.manage_direct_messages;
  manage_ranks = requested.manage_ranks;
  manage_linked_peers = requested.manage_linked_peers;
  manage_welcome_messages = requested.manage_welcome_messages;
}

unfoldable pub merge_banned : ChatBannedRights → ChatBannedRights → ChatBannedRights
merge_banned current requested = record current {
  view_messages = requested.view_messages;
  send_messages = requested.send_messages;
  send_media = requested.send_media;
  send_stickers = requested.send_stickers;
  send_gifs = requested.send_gifs;
  send_games = requested.send_games;
  send_inline = requested.send_inline;
  embed_links = requested.embed_links;
  send_polls = requested.send_polls;
  change_info = requested.change_info;
  invite_users = requested.invite_users;
  pin_messages = requested.pin_messages;
  manage_topics = requested.manage_topics;
  send_photos = requested.send_photos;
  send_videos = requested.send_videos;
  send_roundvideos = requested.send_roundvideos;
  send_audios = requested.send_audios;
  send_voices = requested.send_voices;
  send_docs = requested.send_docs;
  send_plain = requested.send_plain;
  edit_rank = requested.edit_rank;
  send_reactions = requested.send_reactions;
  manage_linked_peers = requested.manage_linked_peers;
  until_date = requested.until_date;
}

unfoldable pub basic_group_promote : ChatAdminRights → Bool
basic_group_promote rights =
    rights.anonymous || rights.change_info || rights.post_messages || rights.edit_messages
    || rights.delete_messages || rights.ban_users || rights.invite_users || rights.pin_messages
    || rights.add_admins || rights.manage_call
