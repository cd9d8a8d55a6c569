-- ===== src/Account/Sessions.antt =====
-- The documents of the account's sessions and of its password (native/src/dto/account.rs).
use kotlogram.Base.{String, Bool, List, Option, map}
use kotlogram.Base.Int.{ℤ}
use kotlogram.Base.Dates.{to_millis}
use kotlogram.Account.Layer.{Authorization, Authorizations, Password}
use kotlogram.Account.Notify.{mapped}

pub record AuthorizationDto : Type 0 where
  pub current : Bool
  pub official_app : Bool
  pub password_pending : Bool
  pub encrypted_requests_disabled : Bool
  pub call_requests_disabled : Bool
  pub unconfirmed : Bool
  pub hash : ℤ
  pub device_model : String
  pub platform : String
  pub system_version : String
  pub api_id : ℤ
  pub app_name : String
  pub app_version : String
  pub date_created : ℤ
  pub date_active : ℤ
  pub ip : String
  pub country : String
  pub region : String

pub record AuthorizationsDto : Type 0 where
  pub authorization_ttl_days : ℤ
  pub authorizations : List AuthorizationDto

pub record PasswordSettingsDto : Type 0 where
  pub has_password : Bool
  pub has_recovery : Bool
  pub has_secure_values : Bool
  pub hint : Option String
  pub email_unconfirmed_pattern : Option String
  pub login_email_pattern : Option String
  pub pending_reset_date : Option ℤ

unfoldable pub authorization_dto : Authorization → AuthorizationDto
authorization_dto authorization = record {
  current = authorization.current;
  official_app = authorization.official_app;
  password_pending = authorization.password_pending;
  encrypted_requests_disabled = authorization.encrypted_requests_disabled;
  call_requests_disabled = authorization.call_requests_disabled;
  unconfirmed = authorization.unconfirmed;
  hash = authorization.hash;
  device_model = authorization.device_model;
  platform = authorization.platform;
  system_version = authorization.system_version;
  api_id = authorization.api_id;
  app_name = authorization.app_name;
  app_version = authorization.app_version;
  date_created = to_millis authorization.date_created;
  date_active = to_millis authorization.date_active;
  ip = authorization.ip;
  country = authorization.country;
  region = authorization.region;
}

unfoldable pub authorizations_dto : Authorizations → AuthorizationsDto
authorizations_dto authorizations = record {
  authorization_ttl_days = authorizations.authorization_ttl_days;
  authorizations = map authorization_dto authorizations.authorizations;
}

unfoldable pub password_settings_dto : Password → PasswordSettingsDto
password_settings_dto password = record {
  has_password = password.has_password;
  has_recovery = password.has_recovery;
  has_secure_values = password.has_secure_values;
  hint = password.hint;
  email_unconfirmed_pattern = password.email_unconfirmed_pattern;
  login_email_pattern = password.login_email_pattern;
  pending_reset_date = mapped to_millis password.pending_reset_date;
}
