-- ===== src/Account/Notify.antt =====
-- The notification settings: the scopes, what a write sends and what a read answers. `resolved` is the
-- peer that the payload names, resolved; `invoke` is what Telegram answers.
use kotlogram.Base.{String, Bool, true, false, [], ◌∷◌, Option, none, some, if◌then◌else◌}
use kotlogram.Base.Int.{ℤ}
use kotlogram.Base.Dates.{to_millis, div_thousand, fits_i32}
use kotlogram.Error.{
  Result, ok, err, ◌>>=◌, ok_or, transposed, Panicking, unsupported_sound, local_sound_needs_title,
  local_sound_needs_data, ringtone_needs_id, mute_out_of_range, forum_topic_needs_id,
  community_needs_channel,
}
use kotlogram.Dispatch.Table.{Table, match_arms}
use kotlogram.Client.Layer.{InputPeer}
use kotlogram.Account.Layer.{
  NotificationSound, InputPeerNotifySettings, PeerNotifySettings, InputNotifyPeer,
}

pub data NotifyScope : Type 0 where
  account peer users chats broadcasts forum_topic community : NotifyScope

unfoldable pub name : NotifyScope → String
name NotifyScope.account = "account"
name NotifyScope.peer = "peer"
name NotifyScope.users = "users"
name NotifyScope.chats = "chats"
name NotifyScope.broadcasts = "broadcasts"
name NotifyScope.forum_topic = "forumTopic"
name NotifyScope.community = "community"

unfoldable pub names_a_peer : NotifyScope → Bool
names_a_peer NotifyScope.peer = true
names_a_peer NotifyScope.forum_topic = true
names_a_peer NotifyScope.community = true
names_a_peer NotifyScope.account = false
names_a_peer NotifyScope.users = false
names_a_peer NotifyScope.chats = false
names_a_peer NotifyScope.broadcasts = false

pub record NotifySoundSpec : Type 0 where
  pub kind : String
  pub id : Option ℤ
  pub title : Option String
  pub payload : Option String

pub record NotifySettingsSpec : Type 0 where
  pub show_previews : Option Bool
  pub silent : Option Bool
  pub mute_until : Option ℤ
  pub sound : Option NotifySoundSpec
  pub stories_muted : Option Bool
  pub stories_hide_sender : Option Bool
  pub stories_sound : Option NotifySoundSpec

pub record NotificationSoundDto : Type 0 where
  pub kind : String
  pub id : Option ℤ
  pub title : Option String
  pub payload : Option String

pub record PeerNotifySettingsDto : Type 0 where
  pub show_previews : Option Bool
  pub silent : Option Bool
  pub mute_until : Option ℤ
  pub ios_sound : Option NotificationSoundDto
  pub android_sound : Option NotificationSoundDto
  pub other_sound : Option NotificationSoundDto
  pub stories_muted : Option Bool
  pub stories_hide_sender : Option Bool
  pub stories_ios_sound : Option NotificationSoundDto
  pub stories_android_sound : Option NotificationSoundDto
  pub stories_other_sound : Option NotificationSoundDto

pub record NotifySettingsDto : Type 0 where
  pub scope : String
  pub settings : PeerNotifySettingsDto

-- option.as_ref().map(f)
abbrev pub mapped {ℓ κ} : {A : Type ℓ} {B : Type κ} → (A → B) → Option A → Option B
mapped f none = none
mapped f (some a) = some (f a)

unfoldable pub notification_sound_dto : NotificationSound → NotificationSoundDto
notification_sound_dto NotificationSound.default = record {
  kind = "default";
  id = none;
  title = none;
  payload = none;
}
notification_sound_dto NotificationSound.none = record {
  kind = "none";
  id = none;
  title = none;
  payload = none;
}
notification_sound_dto (NotificationSound.local t p) = record {
  kind = "local";
  id = none;
  title = some t;
  payload = some p;
}
notification_sound_dto (NotificationSound.ringtone i) = record {
  kind = "ringtone";
  id = some i;
  title = none;
  payload = none;
}

unfoldable pub peer_notify_settings_dto : PeerNotifySettings → PeerNotifySettingsDto
peer_notify_settings_dto settings = record {
  show_previews = settings.show_previews;
  silent = settings.silent;
  mute_until = mapped to_millis settings.mute_until;
  ios_sound = mapped notification_sound_dto settings.ios_sound;
  android_sound = mapped notification_sound_dto settings.android_sound;
  other_sound = mapped notification_sound_dto settings.other_sound;
  stories_muted = settings.stories_muted;
  stories_hide_sender = settings.stories_hide_sender;
  stories_ios_sound = mapped notification_sound_dto settings.stories_ios_sound;
  stories_android_sound = mapped notification_sound_dto settings.stories_android_sound;
  stories_other_sound = mapped notification_sound_dto settings.stories_other_sound;
}

unfoldable pub notify_settings_dto : String → PeerNotifySettings → NotifySettingsDto
notify_settings_dto scope settings = record {
  scope = scope;
  settings = peer_notify_settings_dto settings;
}

-- The arms of `notify_sound_input`, without the last.
unfoldable pub sound_arms : Table (NotifySoundSpec → Result NotificationSound)
sound_arms =
    ("default", λ spec. ok NotificationSound.default)
    ∷ ("none", λ spec. ok NotificationSound.none)
    ∷ (
      "local",
      λ spec. do
        title ← ok_or spec.title local_sound_needs_title
        payload ← ok_or spec.payload local_sound_needs_data
        ok (NotificationSound.local title payload),
    )
    ∷ (
      "ringtone",
      λ spec. do id ← ok_or spec.id ringtone_needs_id; ok (NotificationSound.ringtone id),
    )
    ∷ []

unfoldable pub notify_sound_input : NotifySoundSpec → Result NotificationSound
notify_sound_input spec = elim (match_arms spec.kind sound_arms) [
  | some arm ↦ arm spec
  | none ↦ err (unsupported_sound spec.kind)
]

unfoldable pub seconds : ℤ → Result ℤ
seconds millis =
    if fits_i32 (div_thousand millis)
    then ok (div_thousand millis)
    else err (mute_out_of_range millis)

unfoldable pub notify_settings_input : NotifySettingsSpec → Result InputPeerNotifySettings
notify_settings_input spec = do
  until ← transposed seconds spec.mute_until
  heard ← transposed notify_sound_input spec.sound
  stories ← transposed notify_sound_input spec.stories_sound
  ok (record {
    show_previews = spec.show_previews;
    silent = spec.silent;
    mute_until = until;
    sound = heard;
    stories_muted = spec.stories_muted;
    stories_hide_sender = spec.stories_hide_sender;
    stories_sound = stories;
  })

unfoldable pub notify_peer_self : InputNotifyPeer
notify_peer_self = InputNotifyPeer.peer InputPeer.peer_self

-- The first match of `notify_peer_input`, on the scopes without a peer.
unfoldable pub without_peer : NotifyScope → Panicking InputNotifyPeer
without_peer NotifyScope.account = some notify_peer_self
without_peer NotifyScope.users = some InputNotifyPeer.users
without_peer NotifyScope.chats = some InputNotifyPeer.chats
without_peer NotifyScope.broadcasts = some InputNotifyPeer.broadcasts
without_peer NotifyScope.peer = none
without_peer NotifyScope.forum_topic = none
without_peer NotifyScope.community = none

unfoldable pub community_of : InputPeer → Result InputNotifyPeer
community_of (InputPeer.channel c) = ok (InputNotifyPeer.community c)
community_of other = err community_needs_channel

-- The second match, on the scopes with a peer, which `input` is.
unfoldable pub with_peer : NotifyScope → Option ℤ → InputPeer → Panicking (Result InputNotifyPeer)
with_peer NotifyScope.peer top input = some (ok (InputNotifyPeer.peer input))
with_peer NotifyScope.forum_topic top input = some (do
  top_msg_id ← ok_or top forum_topic_needs_id
  ok (InputNotifyPeer.forum_topic input top_msg_id))
with_peer NotifyScope.community top input = some (community_of input)
with_peer NotifyScope.account top input = none
with_peer NotifyScope.users top input = none
with_peer NotifyScope.chats top input = none
with_peer NotifyScope.broadcasts top input = none

unfoldable pub notify_peer_input :
    Result InputPeer → NotifyScope → Option ℤ → Panicking (Result InputNotifyPeer)
notify_peer_input resolved scope top =
    if names_a_peer scope
    then elim resolved [ ok input ↦ with_peer scope top input | err e ↦ some (err e) ]
    else mapped ok (without_peer scope)

-- A panic ends the operation.
abbrev with_target {ℓ} :
    {A : Type ℓ}
    → Panicking (Result InputNotifyPeer)
    → (InputNotifyPeer → Result A)
    → Panicking (Result A)
with_target none f = none
with_target (some (ok target)) f = some (f target)
with_target (some (err e)) f = some (err e)

unfoldable pub get_notify_settings :
    (InputNotifyPeer → Result PeerNotifySettings)
    → Result InputPeer
    → NotifyScope
    → Option ℤ
    → Panicking (Result NotifySettingsDto)
get_notify_settings invoke resolved scope top =
    with_target (notify_peer_input resolved scope top)
      (λ target. do settings ← invoke target; ok (notify_settings_dto (name scope) settings))

-- The answer `{"ok": true}` carries nothing.
unfoldable pub update_notify_settings :
    (InputNotifyPeer → InputPeerNotifySettings → Result (Unit {0}))
    → Result InputPeer
    → NotifyScope
    → Option ℤ
    → NotifySettingsSpec
    → Panicking (Result (Unit {0}))
update_notify_settings invoke resolved scope top spec =
    with_target (notify_peer_input resolved scope top)
      (λ target. do settings ← notify_settings_input spec; invoke target settings)
