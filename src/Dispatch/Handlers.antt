-- ===== src/Dispatch/Handlers.antt =====
-- The handlers that native/src/ops routes to, one constructor for each function.
pub data Handler : Type 0 where
  -- native/src/ops/account.rs
  update_profile update_username check_username update_status get_authorizations : Handler
  reset_authorization reset_authorizations get_password get_privacy set_privacy : Handler
  get_notify_settings update_notify_settings : Handler
  -- native/src/ops/auth.rs
  request_login_code sign_in check_password sign_out get_me get_self_peer : Handler
  get_data_centre_id resolve_username : Handler
  -- native/src/ops/chatlists.rs
  export_chatlist_invite delete_exported_invite edit_exported_invite : Handler
  get_exported_invites check_chatlist_invite join_chatlist_invite : Handler
  get_chatlist_updates join_chatlist_updates hide_chatlist_updates : Handler
  get_leave_chatlist_suggestions leave_chatlist : Handler
  -- native/src/ops/messages.rs
  send_message send_file send_album edit_message delete_messages get_history : Handler
  get_history_total get_chat_photos get_messages get_reply_to_message : Handler
  search_messages search_messages_total search_all_messages : Handler
  search_all_messages_total forward_messages get_pinned_message pin_message : Handler
  unpin_message unpin_all_messages send_reaction : Handler
  -- native/src/ops/chats.rs
  get_participants kick_participant invite_to_channel join_chat leave_chat : Handler
  get_permissions set_banned_rights set_admin_rights accept_invite_link : Handler
  parse_invite_link resolve_peer_by_id : Handler
  -- native/src/ops/contacts.rs
  get_contacts import_contacts delete_contacts block unblock get_blocked search : Handler
  -- native/src/ops/dialogs.rs
  get_dialogs get_dialogs_meta get_dialogs_total mark_as_read clear_mentions : Handler
  -- native/src/ops/updates.rs
  next_update next_raw_update sync_update_state answer_guest_chat_query : Handler
  -- native/src/ops/media.rs
  send_media send_media_url copy_media : Handler
  -- native/src/ops/stickers.rs
  get_sticker_set get_all_stickers get_recent_stickers get_faved_stickers : Handler
  install_sticker_set uninstall_sticker_set send_sticker : Handler
  -- native/src/ops/files.rs
  download_media download_media_chunk upload_file upload_bytes upload_progress : Handler
  upload_progress_begin upload_stream_begin upload_stream_chunk upload_stream_finish : Handler
  iter_profile_photos : Handler
  -- native/src/ops/folders.rs
  get_dialog_filters update_dialog_filter update_dialog_filters_order : Handler
  -- native/src/ops/inline.rs
  inline_query answer_callback_query answer_inline_query send_inline_bot_result : Handler
  edit_inline_message : Handler
  -- native/src/ops/actions.rs
  send_chat_action get_message_action : Handler
  -- native/src/ops/markup.rs
  get_reply_markup build_inline_markup build_reply_keyboard build_force_reply : Handler
  build_hide_keyboard : Handler
  -- native/src/ops/users.rs
  get_users : Handler
