-- ===== src/Dispatch/Account.antt =====
-- The operation names of native/src/ops/account.rs and its `route`.
use kotlogram.Base.{String, Option, List, [], ◌∷◌}
use kotlogram.Dispatch.Handlers.{
  Handler, update_profile, update_username, check_username, update_status, get_authorizations,
  reset_authorization, reset_authorizations, get_password, get_privacy, set_privacy,
  get_notify_settings, update_notify_settings,
}
use kotlogram.Dispatch.Table.{Table, match_arms}

abbrev pub operations : List String
operations =
    "accountUpdateProfile" ∷ "accountUpdateUsername" ∷ "accountCheckUsername"
    ∷ "accountUpdateStatus" ∷ "accountGetAuthorizations" ∷ "accountResetAuthorization"
    ∷ "accountResetAuthorizations" ∷ "accountGetPassword" ∷ "accountGetPrivacy"
    ∷ "accountSetPrivacy" ∷ "accountGetNotifySettings" ∷ "accountUpdateNotifySettings" ∷ []

abbrev pub arms : Table Handler
arms =
    ("accountUpdateProfile", update_profile)
    ∷ ("accountUpdateUsername", update_username)
    ∷ ("accountCheckUsername", check_username)
    ∷ ("accountUpdateStatus", update_status)
    ∷ ("accountGetAuthorizations", get_authorizations)
    ∷ ("accountResetAuthorization", reset_authorization)
    ∷ ("accountResetAuthorizations", reset_authorizations)
    ∷ ("accountGetPassword", get_password)
    ∷ ("accountGetPrivacy", get_privacy)
    ∷ ("accountSetPrivacy", set_privacy)
    ∷ ("accountGetNotifySettings", get_notify_settings)
    ∷ ("accountUpdateNotifySettings", update_notify_settings)
    ∷ []

unfoldable pub route : String → Option Handler
route operation = match_arms operation arms
