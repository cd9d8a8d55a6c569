-- ===== src/Chats/Types.antt =====
-- The layer's rights of admins and of restricted members, as native/src/dto/permissions.rs reads and
-- writes them, and their documents.
use kotlogram.Base.{Bool}
use kotlogram.Base.Int.{ℤ}

pub record ChatAdminRights : Type 0 where
  pub change_info : Bool
  pub post_messages : Bool
  pub edit_messages : Bool
  pub delete_messages : Bool
  pub ban_users : Bool
  pub invite_users : Bool
  pub pin_messages : Bool
  pub add_admins : Bool
  pub anonymous : Bool
  pub manage_call : Bool
  pub other : Bool
  pub manage_topics : Bool
  pub post_stories : Bool
  pub edit_stories : Bool
  pub delete_stories : Bool
  pub manage_direct_messages : Bool
  pub manage_ranks : Bool
  pub manage_linked_peers : Bool
  pub manage_welcome_messages : Bool

pub record ChatBannedRights : Type 0 where
  pub view_messages : Bool
  pub send_messages : Bool
  pub send_media : Bool
  pub send_stickers : Bool
  pub send_gifs : Bool
  pub send_games : Bool
  pub send_inline : Bool
  pub embed_links : Bool
  pub send_polls : Bool
  pub change_info : Bool
  pub invite_users : Bool
  pub pin_messages : Bool
  pub manage_topics : Bool
  pub send_photos : Bool
  pub send_videos : Bool
  pub send_roundvideos : Bool
  pub send_audios : Bool
  pub send_voices : Bool
  pub send_docs : Bool
  pub send_plain : Bool
  pub edit_rank : Bool
  pub send_reactions : Bool
  pub manage_linked_peers : Bool
  pub until_date : ℤ

pub record ChatPermissionsDto : Type 0 where
  pub change_info : Bool
  pub post_messages : Bool
  pub edit_messages : Bool
  pub delete_messages : Bool
  pub ban_users : Bool
  pub invite_users : Bool
  pub pin_messages : Bool
  pub add_admins : Bool
  pub anonymous : Bool
  pub manage_call : Bool
  pub manage_topics : Bool
  pub post_stories : Bool
  pub edit_stories : Bool
  pub delete_stories : Bool
  pub manage_direct_messages : Bool
  pub manage_ranks : Bool
  pub manage_linked_peers : Bool
  pub manage_welcome_messages : Bool
  pub other : Bool

pub record ChatRestrictionsDto : Type 0 where
  pub view_messages : Bool
  pub send_messages : Bool
  pub send_media : Bool
  pub send_stickers : Bool
  pub send_gifs : Bool
  pub send_games : Bool
  pub send_inline : Bool
  pub embed_links : Bool
  pub send_polls : Bool
  pub change_info : Bool
  pub invite_users : Bool
  pub pin_messages : Bool
  pub manage_topics : Bool
  pub send_photos : Bool
  pub send_videos : Bool
  pub send_roundvideos : Bool
  pub send_audios : Bool
  pub send_voices : Bool
  pub send_docs : Bool
  pub send_plain : Bool
  pub edit_rank : Bool
  pub send_reactions : Bool
  pub manage_linked_peers : Bool
  pub until_date : ℤ
