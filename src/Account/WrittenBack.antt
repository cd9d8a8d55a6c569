-- ===== src/Account/WrittenBack.antt =====
-- What was read can be written back, and no account operation panics.
use kotlogram.Base.{
  String, ◌≡◌, ◌≢◌, refl, List, [], ◌∷◌, map, Option, none, some, Option-cases, Bool-cases, inl,
  inr,
}
use kotlogram.Base.Int.{ℤ}
use kotlogram.Base.Dates.{to_millis, IsDate, div_thousand-to_millis, fits_i32-IsDate}
use kotlogram.Error.{
  Result, ok, err, ◌>>=◌, map_ok, try_map, transposed, Result-cases, rule_needs_access_hashes,
}
use kotlogram.Dispatch.Table.{match_arms, contains, is_some-match_arms}
use kotlogram.Client.Layer.{InputPeer}
use kotlogram.Account.Layer.{
  InputPrivacyKey, InputPrivacyRule, PrivacyRule, PrivacyRules, NotificationSound,
  InputPeerNotifySettings, PeerNotifySettings, InputNotifyPeer,
}
use kotlogram.Account.Privacy.{
  privacy_keys, PrivacyRuleSpec, PrivacyRuleDto, key_arms, privacy_key_input, rule_arms,
  privacy_rule_input, privacy_rule_dto, privacy_rules_dto, get_privacy, set_privacy,
}
use kotlogram.Account.Notify.{
  NotifyScope, names_a_peer, NotifySoundSpec, NotifySettingsSpec, NotificationSoundDto,
  PeerNotifySettingsDto, mapped, notification_sound_dto, peer_notify_settings_dto, sound_arms,
  notify_sound_input, seconds, notify_settings_input, without_peer, with_peer, notify_peer_input,
  get_notify_settings, update_notify_settings,
}

-- A rule's document read as a specification, which ignores the users.
abbrev pub rule_reread : PrivacyRuleDto → PrivacyRuleSpec
rule_reread dto = record { kind = dto.kind; chats = dto.chats }

-- The rule that writes a rule back; those on users need access hashes, which no document carries.
abbrev pub rule_written : PrivacyRule → Result InputPrivacyRule
rule_written PrivacyRule.allow_all = ok InputPrivacyRule.allow_all
rule_written PrivacyRule.disallow_all = ok InputPrivacyRule.disallow_all
rule_written PrivacyRule.allow_contacts = ok InputPrivacyRule.allow_contacts
rule_written PrivacyRule.disallow_contacts = ok InputPrivacyRule.disallow_contacts
rule_written PrivacyRule.allow_close_friends = ok InputPrivacyRule.allow_close_friends
rule_written PrivacyRule.allow_premium = ok InputPrivacyRule.allow_premium
rule_written PrivacyRule.allow_bots = ok InputPrivacyRule.allow_bots
rule_written PrivacyRule.disallow_bots = ok InputPrivacyRule.disallow_bots
rule_written (PrivacyRule.allow_users ids) = err (rule_needs_access_hashes "allowUsers")
rule_written (PrivacyRule.disallow_users ids) = err (rule_needs_access_hashes "disallowUsers")
rule_written (PrivacyRule.allow_chat_participants ids) =
    ok (InputPrivacyRule.allow_chat_participants ids)
rule_written (PrivacyRule.disallow_chat_participants ids) =
    ok (InputPrivacyRule.disallow_chat_participants ids)

privacy_rule_input-dto :
    (rule : PrivacyRule)
    → privacy_rule_input (rule_reread (privacy_rule_dto rule)) ≡ rule_written rule
unfolding privacy_rule_input privacy_rule_dto rule_arms match_arms
privacy_rule_input-dto PrivacyRule.allow_all = refl
privacy_rule_input-dto PrivacyRule.disallow_all = refl
privacy_rule_input-dto PrivacyRule.allow_contacts = refl
privacy_rule_input-dto PrivacyRule.disallow_contacts = refl
privacy_rule_input-dto PrivacyRule.allow_close_friends = refl
privacy_rule_input-dto PrivacyRule.allow_premium = refl
privacy_rule_input-dto PrivacyRule.allow_bots = refl
privacy_rule_input-dto PrivacyRule.disallow_bots = refl
privacy_rule_input-dto (PrivacyRule.allow_users ids) = refl
privacy_rule_input-dto (PrivacyRule.disallow_users ids) = refl
privacy_rule_input-dto (PrivacyRule.allow_chat_participants ids) = refl
privacy_rule_input-dto (PrivacyRule.disallow_chat_participants ids) = refl

rules_written :
    (rules : List PrivacyRule)
    → try_map privacy_rule_input (map rule_reread (map privacy_rule_dto rules))
      ≡ try_map rule_written rules
rules_written [] = refl
rules_written (rule ∷ rules) = rw (privacy_rule_input-dto rule, rules_written rules)

-- For a key that exists: writing back the rules that a read of it answered sends those very rules, in
-- order and with their chats, and answers the rules that Telegram then reports. Where a rule is on
-- users, nothing is sent, and the first such rule is refused by its name.
pub set_privacy-privacy_rules_dto :
    (invoke : (InputPrivacyKey → List InputPrivacyRule → Result PrivacyRules)) (key : String)
    (input : InputPrivacyKey) (rules : PrivacyRules)
    → privacy_key_input key ≡ some (ok input)
    → set_privacy invoke key (map rule_reread (privacy_rules_dto key rules).rules)
      ≡ some (
          try_map rule_written rules.rules >>= λ sent.
          map_ok (privacy_rules_dto key) (invoke input sent))
unfolding set_privacy privacy_rules_dto
set_privacy-privacy_rules_dto invoke key input rules known =
    rw (known, rules_written rules.rules)
      (elim (Result-cases (try_map rule_written rules.rules)) [
        | inl (sent, all) ↦ rw all (elim (Result-cases (invoke input sent)) [
          | inl (after, answered) ↦ rw answered
          | inr (e, failed) ↦ rw failed
        ])
        | inr (e, first) ↦ rw first
      ])

abbrev pub sound_reread : NotificationSoundDto → NotifySoundSpec
sound_reread dto = record { kind = dto.kind; id = dto.id; title = dto.title; payload = dto.payload }

-- The settings of a scope as a specification, with the sound of one of its platforms.
abbrev pub settings_reread :
    (sound stories_sound : (PeerNotifySettingsDto → Option NotificationSoundDto))
    → PeerNotifySettingsDto
    → NotifySettingsSpec
settings_reread heard stories dto = record {
  show_previews = dto.show_previews;
  silent = dto.silent;
  mute_until = dto.mute_until;
  sound = mapped sound_reread (heard dto);
  stories_muted = dto.stories_muted;
  stories_hide_sender = dto.stories_hide_sender;
  stories_sound = mapped sound_reread (stories dto);
}

notify_sound_input-dto :
    (sound : NotificationSound)
    → notify_sound_input (sound_reread (notification_sound_dto sound)) ≡ ok sound
unfolding notify_sound_input notification_sound_dto sound_arms match_arms
notify_sound_input-dto NotificationSound.default = refl
notify_sound_input-dto NotificationSound.none = refl
notify_sound_input-dto (NotificationSound.local t p) = refl
notify_sound_input-dto (NotificationSound.ringtone i) = refl

sounds_back :
    (sound : Option NotificationSound)
    → transposed notify_sound_input (mapped sound_reread (mapped notification_sound_dto sound))
      ≡ ok sound
sounds_back none = refl
sounds_back (some sound) = rw (notify_sound_input-dto sound)

-- The dates that the layer can hold.
abbrev pub AreDates : Option ℤ → Type 0
AreDates none = Unit
AreDates (some date) = IsDate date

seconds_back :
    (date : Option ℤ) → AreDates date → transposed seconds (mapped to_millis date) ≡ ok date
unfolding seconds
seconds_back none small = refl
seconds_back (some date) small = rw (div_thousand-to_millis date, fits_i32-IsDate date small)

-- Writing back the notification settings that a read answered sends those very settings: each flag that
-- was set and no other, the mute date to the second, before the epoch too, and the sounds of the
-- other platforms as they were.
pub notify_settings_input-dto :
    (settings : PeerNotifySettings)
    → AreDates settings.mute_until
    → notify_settings_input (
        settings_reread
          (λ dto. dto.other_sound)
          (λ dto. dto.stories_other_sound)
          (peer_notify_settings_dto settings))
      ≡ ok (record {
        show_previews = settings.show_previews;
        silent = settings.silent;
        mute_until = settings.mute_until;
        sound = settings.other_sound;
        stories_muted = settings.stories_muted;
        stories_hide_sender = settings.stories_hide_sender;
        stories_sound = settings.stories_other_sound;
      })
unfolding notify_settings_input peer_notify_settings_dto
notify_settings_input-dto settings small = rw (
  seconds_back settings.mute_until small,
  sounds_back settings.other_sound,
  sounds_back settings.stories_other_sound,
)

privacy_key_input-returns : (key : String) → privacy_key_input key ≢ none
unfolding privacy_key_input key_arms
privacy_key_input-returns key panics = elim (Bool-cases (contains privacy_keys key)) [
  | inl known ↦ elim (Option-cases (match_arms key key_arms)) [
    | inl missing ↦ let found = is_some-match_arms key key_arms in cc (rw missing at found)
    | inr (input, found) ↦ cc (rw (known, found) at panics)
  ]
  | inr other ↦ cc (rw other at panics)
]

notify_peer_input-returns :
    (resolved : Result InputPeer) (scope : NotifyScope) (top : Option ℤ)
    → notify_peer_input resolved scope top ≢ none
unfolding notify_peer_input names_a_peer with_peer without_peer
notify_peer_input-returns resolved NotifyScope.account top panics = cc
notify_peer_input-returns resolved NotifyScope.users top panics = cc
notify_peer_input-returns resolved NotifyScope.chats top panics = cc
notify_peer_input-returns resolved NotifyScope.broadcasts top panics = cc
notify_peer_input-returns (ok input) NotifyScope.peer top panics = cc
notify_peer_input-returns (err e) NotifyScope.peer top panics = cc
notify_peer_input-returns (ok input) NotifyScope.forum_topic top panics = cc
notify_peer_input-returns (err e) NotifyScope.forum_topic top panics = cc
notify_peer_input-returns (ok input) NotifyScope.community top panics = cc
notify_peer_input-returns (err e) NotifyScope.community top panics = cc

-- A panic of an operation is one of its first step.
get_privacy-returns :
    (invoke : (InputPrivacyKey → Result PrivacyRules)) (key : String)
    → get_privacy invoke key ≢ none
unfolding get_privacy
get_privacy-returns invoke key panics = elim (Option-cases (privacy_key_input key)) [
  | inl none_here ↦ privacy_key_input-returns key none_here
  | inr (ok input, here) ↦ cc (rw here at panics)
  | inr (err e, here) ↦ cc (rw here at panics)
]

set_privacy-returns :
    (invoke : (InputPrivacyKey → List InputPrivacyRule → Result PrivacyRules)) (key : String)
    (specs : List PrivacyRuleSpec)
    → set_privacy invoke key specs ≢ none
unfolding set_privacy
set_privacy-returns invoke key specs panics = elim (Option-cases (privacy_key_input key)) [
  | inl none_here ↦ privacy_key_input-returns key none_here
  | inr (ok input, here) ↦ cc (rw here at panics)
  | inr (err e, here) ↦ cc (rw here at panics)
]

module _ (resolved : Result InputPeer) (scope : NotifyScope) (top : Option ℤ) where
  get_notify_settings-returns :
      (invoke : (InputNotifyPeer → Result PeerNotifySettings))
      → get_notify_settings invoke resolved scope top ≢ none
  unfolding get_notify_settings
  get_notify_settings-returns invoke panics =
      elim (Option-cases (notify_peer_input resolved scope top)) [
        | inl none_here ↦ notify_peer_input-returns resolved scope top none_here
        | inr (ok target, here) ↦ cc (rw here at panics)
        | inr (err e, here) ↦ cc (rw here at panics)
      ]

  update_notify_settings-returns :
      (invoke : (InputNotifyPeer → InputPeerNotifySettings → Result (Unit {0})))
      (spec : NotifySettingsSpec)
      → update_notify_settings invoke resolved scope top spec ≢ none
  unfolding update_notify_settings
  update_notify_settings-returns invoke spec panics =
      elim (Option-cases (notify_peer_input resolved scope top)) [
        | inl none_here ↦ notify_peer_input-returns resolved scope top none_here
        | inr (ok target, here) ↦ cc (rw here at panics)
        | inr (err e, here) ↦ cc (rw here at panics)
      ]

-- The arms that the source marks unreachable are: whatever key and rules a caller names, whatever scope
-- and topic, whatever the peer resolves to and Telegram answers, reading and writing privacy and
-- notification settings end in an answer or an error.
pub never_panics :
    (get : (InputPrivacyKey → Result PrivacyRules))
    (set : (InputPrivacyKey → List InputPrivacyRule → Result PrivacyRules))
    (read : (InputNotifyPeer → Result PeerNotifySettings))
    (update : (InputNotifyPeer → InputPeerNotifySettings → Result (Unit {0}))) (key : String)
    (rules : List PrivacyRuleSpec) (resolved : Result InputPeer) (scope : NotifyScope)
    (top : Option ℤ) (settings : NotifySettingsSpec)
    → (get_privacy get key ≢ none)
      × (set_privacy set key rules ≢ none)
      × (get_notify_settings read resolved scope top ≢ none)
      × (update_notify_settings update resolved scope top settings ≢ none)
never_panics get set read update key rules resolved scope top settings = (
  get_privacy-returns get key,
  set_privacy-returns set key rules,
  get_notify_settings-returns resolved scope top read,
  update_notify_settings-returns resolved scope top update settings,
)
