-- ===== src/Users/Documents.antt =====
-- The document of a user (native/src/dto/user.rs). What grammers' accessors answer of a user is a record.
use kotlogram.Base.{String, Bool, false, List, map, Option, none, some}
use kotlogram.Base.Int.{ℤ, pos}
use kotlogram.Base.Dates.{to_millis}

pub data UserStatus : Type 0 where
  empty : UserStatus
  online : (expires : ℤ) → UserStatus
  offline : (was_online : ℤ) → UserStatus
  recently last_week last_month : (by_me : Bool) → UserStatus

-- grammers' platforms; it may name more of them later.
pub data Platform : Type 0 where
  all android ios windows_phone later : Platform
  other : (name : String) → Platform

pub record RestrictionReason : Type 0 where
  pub platforms : List Platform
  pub reason : String
  pub text : String

-- The accessors: `bare_id` is that of the id, `photo_id` that of the photo.
pub record ClientUser : Type 0 where
  pub bare_id : Option ℤ
  pub username : Option String
  pub first_name : Option String
  pub last_name : Option String
  pub full_name : String
  pub usernames : List String
  pub phone : Option String
  pub photo_id : Option ℤ
  pub status : UserStatus
  pub lang_code : Option String
  pub is_self : Bool
  pub contact : Bool
  pub mutual_contact : Bool
  pub deleted : Bool
  pub is_bot : Bool
  pub bot_privacy : Bool
  pub bot_supports_chats : Bool
  pub bot_inline_geo : Bool
  pub bot_inline_placeholder : Option String
  pub verified : Bool
  pub restricted : Bool
  pub support : Bool
  pub scam : Bool
  pub restriction_reason : List RestrictionReason

pub record RestrictionReasonDto : Type 0 where
  pub platforms : List String
  pub reason : String
  pub text : String

pub record UserDto : Type 0 where
  pub id : ℤ
  pub username : Option String
  pub first_name : Option String
  pub last_name : Option String
  pub full_name : String
  pub usernames : List String
  pub phone : Option String
  pub photo_id : Option ℤ
  pub status : String
  pub status_expires : Option ℤ
  pub last_seen : Option ℤ
  pub status_by_me : Bool
  pub lang_code : Option String
  pub is_self : Bool
  pub contact : Bool
  pub mutual_contact : Bool
  pub deleted : Bool
  pub is_bot : Bool
  pub bot_privacy : Bool
  pub bot_supports_chats : Bool
  pub bot_inline_geo : Bool
  pub bot_inline_placeholder : Option String
  pub verified : Bool
  pub restricted : Bool
  pub support : Bool
  pub scam : Bool
  pub restriction_reasons : List RestrictionReasonDto

unfoldable pub platform_name : Platform → String
platform_name Platform.all = "all"
platform_name Platform.android = "android"
platform_name Platform.ios = "ios"
platform_name Platform.windows_phone = "windowsPhone"
platform_name (Platform.other name) = name
platform_name Platform.later = "unknown"

unfoldable pub restriction_reason_dto : RestrictionReason → RestrictionReasonDto
restriction_reason_dto reason = record {
  platforms = map platform_name reason.platforms;
  reason = reason.reason;
  text = reason.text;
}

-- The tuple of `status_dto`.
pub record StatusDto : Type 0 where
  pub name : String
  pub expires : Option ℤ
  pub last_seen : Option ℤ
  pub by_me : Bool

abbrev status_of : String → Option ℤ → Option ℤ → Bool → StatusDto
status_of n e l b = record { name = n; expires = e; last_seen = l; by_me = b }

unfoldable pub status_dto : UserStatus → StatusDto
status_dto UserStatus.empty = status_of "unknown" none none false
status_dto (UserStatus.online expires) = status_of "online" (some (to_millis expires)) none false
status_dto (UserStatus.offline was_online) =
    status_of "offline" none (some (to_millis was_online)) false
status_dto (UserStatus.recently by_me) = status_of "recently" none none by_me
status_dto (UserStatus.last_week by_me) = status_of "lastWeek" none none by_me
status_dto (UserStatus.last_month by_me) = status_of "lastMonth" none none by_me

-- id.unwrap_or(0)
abbrev or_zero : Option ℤ → ℤ
or_zero none = pos 0
or_zero (some id) = id

unfoldable pub user_dto : ClientUser → UserDto
user_dto user =
    let status = status_dto user.status in
    record {
      id = or_zero user.bare_id;
      username = user.username;
      first_name = user.first_name;
      last_name = user.last_name;
      full_name = user.full_name;
      usernames = user.usernames;
      phone = user.phone;
      photo_id = user.photo_id;
      status = status.name;
      status_expires = status.expires;
      last_seen = status.last_seen;
      status_by_me = status.by_me;
      lang_code = user.lang_code;
      is_self = user.is_self;
      contact = user.contact;
      mutual_contact = user.mutual_contact;
      deleted = user.deleted;
      is_bot = user.is_bot;
      bot_privacy = user.bot_privacy;
      bot_supports_chats = user.bot_supports_chats;
      bot_inline_geo = user.bot_inline_geo;
      bot_inline_placeholder = user.bot_inline_placeholder;
      verified = user.verified;
      restricted = user.restricted;
      support = user.support;
      scam = user.scam;
      restriction_reasons = map restriction_reason_dto user.restriction_reason;
    }
