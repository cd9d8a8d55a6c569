-- ===== src/Account/Layer.antt =====
-- The layer's privacy rules, notification settings and sessions, as the schema of
-- kotlogramme-kotlin/src/main/resources/raw declares them, with the constructors and fields that
-- native/src/ops/account.rs and its documents name.
use kotlogram.Base.{String, Bool, List, Option}
use kotlogram.Base.Int.{ℤ}
use kotlogram.Client.Layer.{InputPeer, InputChannel}

pub data InputPrivacyKey : Type 0 where
  status_timestamp chat_invite phone_number : InputPrivacyKey

-- The rules that a write can send; those on users carry access hashes and are never built.
pub data InputPrivacyRule : Type 0 where
  allow_all disallow_all allow_contacts disallow_contacts : InputPrivacyRule
  allow_close_friends allow_premium allow_bots disallow_bots : InputPrivacyRule
  allow_chat_participants disallow_chat_participants : (chats : List ℤ) → InputPrivacyRule

pub data PrivacyRule : Type 0 where
  allow_all disallow_all allow_contacts disallow_contacts : PrivacyRule
  allow_close_friends allow_premium allow_bots disallow_bots : PrivacyRule
  allow_users disallow_users : (users : List ℤ) → PrivacyRule
  allow_chat_participants disallow_chat_participants : (chats : List ℤ) → PrivacyRule

-- The rules, with the ids of the chats and users that they reference.
pub record PrivacyRules : Type 0 where
  pub rules : List PrivacyRule
  pub chats : List ℤ
  pub users : List ℤ

pub data NotificationSound : Type 0 where
  default none : NotificationSound
  local : (title payload : String) → NotificationSound
  ringtone : (id : ℤ) → NotificationSound

pub record InputPeerNotifySettings : Type 0 where
  pub show_previews : Option Bool
  pub silent : Option Bool
  pub mute_until : Option ℤ
  pub sound : Option NotificationSound
  pub stories_muted : Option Bool
  pub stories_hide_sender : Option Bool
  pub stories_sound : Option NotificationSound

pub record PeerNotifySettings : Type 0 where
  pub show_previews : Option Bool
  pub silent : Option Bool
  pub mute_until : Option ℤ
  pub ios_sound : Option NotificationSound
  pub android_sound : Option NotificationSound
  pub other_sound : Option NotificationSound
  pub stories_muted : Option Bool
  pub stories_hide_sender : Option Bool
  pub stories_ios_sound : Option NotificationSound
  pub stories_android_sound : Option NotificationSound
  pub stories_other_sound : Option NotificationSound

pub data InputNotifyPeer : Type 0 where
  peer : InputPeer → InputNotifyPeer
  users chats broadcasts : InputNotifyPeer
  forum_topic : InputPeer → (top_msg_id : ℤ) → InputNotifyPeer
  community : InputChannel → InputNotifyPeer

pub record Authorization : Type 0 where
  pub current : Bool
  pub official_app : Bool
  pub password_pending : Bool
  pub encrypted_requests_disabled : Bool
  pub call_requests_disabled : Bool
  pub unconfirmed : Bool
  pub hash : ℤ
  pub device_model : String
  pub platform : String
  pub system_version : String
  pub api_id : ℤ
  pub app_name : String
  pub app_version : String
  pub date_created : ℤ
  pub date_active : ℤ
  pub ip : String
  pub country : String
  pub region : String

pub record Authorizations : Type 0 where
  pub authorization_ttl_days : ℤ
  pub authorizations : List Authorization

pub record Password : Type 0 where
  pub has_password : Bool
  pub has_recovery : Bool
  pub has_secure_values : Bool
  pub hint : Option String
  pub email_unconfirmed_pattern : Option String
  pub login_email_pattern : Option String
  pub pending_reset_date : Option ℤ
