-- ===== src/Account/Examples.antt =====
-- Two privacy rules on the last seen time, settings muted until five seconds before the epoch, and a
-- topic of a forum.
use kotlogram.Base.{◌≡◌, ◌≢◌, refl, true, false, List, [], ◌∷◌, map, none, some, arith}
use kotlogram.Base.Int.{pos, negsuc}
use kotlogram.Error.{
  Result, ok, err, ◌>>=◌, map_ok, try_map, unsupported_privacy_key, forum_topic_needs_id,
}
use kotlogram.Dispatch.Table.{match_arms}
use kotlogram.Client.Layer.{InputPeer}
use kotlogram.Account.Layer.{
  InputPrivacyKey, InputPrivacyRule, PrivacyRule, PrivacyRules, NotificationSound,
  PeerNotifySettings,
}
use kotlogram.Account.Privacy.{
  key_arms, privacy_key_input, privacy_rules_dto, get_privacy, set_privacy,
}
use kotlogram.Account.Notify.{
  NotifyScope, names_a_peer, NotifySettingsSpec, with_peer, notify_peer_input,
  peer_notify_settings_dto, notify_settings_input, get_notify_settings, update_notify_settings,
}
use kotlogram.Account.WrittenBack.{
  rule_reread, rule_written, set_privacy-privacy_rules_dto, settings_reread,
  notify_settings_input-dto, never_panics,
}

abbrev last_seen : PrivacyRules
last_seen = record {
  rules =
      PrivacyRule.allow_contacts
      ∷ PrivacyRule.allow_chat_participants (pos 7 ∷ [])
      ∷ PrivacyRule.disallow_all
      ∷ [];
  chats = pos 7 ∷ [];
  users = [];
}

abbrev keeps : InputPrivacyKey → List InputPrivacyRule → Result PrivacyRules
keeps key rules = ok last_seen

known_key : privacy_key_input "statusTimestamp" ≡ some (ok InputPrivacyKey.status_timestamp)
unfolding privacy_key_input key_arms match_arms
known_key = refl

other_key : privacy_key_input "birthday" ≡ some (err (unsupported_privacy_key "birthday"))
unfolding privacy_key_input key_arms match_arms
other_key = refl

set_privacy-privacy_rules_dto_example :
    set_privacy keeps "statusTimestamp"
      (map rule_reread (privacy_rules_dto "statusTimestamp" last_seen).rules)
    ≡ some (
        try_map rule_written last_seen.rules >>= λ sent.
        map_ok (privacy_rules_dto "statusTimestamp") (keeps InputPrivacyKey.status_timestamp sent))
set_privacy-privacy_rules_dto_example =
    set_privacy-privacy_rules_dto keeps "statusTimestamp" InputPrivacyKey.status_timestamp last_seen
      known_key

abbrev muted : PeerNotifySettings
muted = record {
  show_previews = some false;
  silent = none;
  mute_until = some (negsuc 4);
  ios_sound = none;
  android_sound = none;
  other_sound = some (NotificationSound.ringtone (pos 3));
  stories_muted = none;
  stories_hide_sender = some true;
  stories_ios_sound = none;
  stories_android_sound = none;
  stories_other_sound = some NotificationSound.none;
}

notify_settings_input-dto_example :
    notify_settings_input (
      settings_reread
        (λ dto. dto.other_sound)
        (λ dto. dto.stories_other_sound)
        (peer_notify_settings_dto muted))
    ≡ ok (record {
      show_previews = some false;
      silent = none;
      mute_until = some (negsuc 4);
      sound = some (NotificationSound.ringtone (pos 3));
      stories_muted = none;
      stories_hide_sender = some true;
      stories_sound = some NotificationSound.none;
    })
notify_settings_input-dto_example = notify_settings_input-dto muted (omega arith)

-- A topic without its message id is refused.
no_topic :
    notify_peer_input (ok InputPeer.peer_self) NotifyScope.forum_topic none
    ≡ some (err forum_topic_needs_id)
unfolding notify_peer_input names_a_peer with_peer
no_topic = refl

abbrev untouched : NotifySettingsSpec
untouched = record {
  show_previews = none;
  silent = none;
  mute_until = none;
  sound = none;
  stories_muted = none;
  stories_hide_sender = none;
  stories_sound = none;
}

never_panics_example :
    (get_privacy (λ key. ok last_seen) "birthday" ≢ none)
    × (set_privacy keeps "birthday" [] ≢ none)
    × (get_notify_settings (λ target. ok muted) (ok InputPeer.peer_self) NotifyScope.community none
        ≢ none)
    × (update_notify_settings
          (λ target settings. ok tt)
          (ok InputPeer.peer_self)
          NotifyScope.community
          none
          untouched
        ≢ none)
never_panics_example =
    never_panics (λ key. ok last_seen) keeps (λ target. ok muted) (λ target settings. ok tt)
      "birthday" [] (ok InputPeer.peer_self) NotifyScope.community none untouched
