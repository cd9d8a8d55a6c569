-- ===== src/Account/Privacy.antt =====
-- The privacy settings: the names of keys and rules, what a write sends and what a read answers. `invoke`
-- is what Telegram answers.
use kotlogram.Base.{String, List, [], ◌∷◌, map, none, some, if◌then◌else◌}
use kotlogram.Base.Int.{ℤ}
use kotlogram.Error.{
  Result, ok, err, ◌>>=◌, Panicking, try_map, unsupported_privacy_key, unsupported_privacy_rule,
  rule_needs_access_hashes,
}
use kotlogram.Dispatch.Table.{Table, match_arms, contains}
use kotlogram.Account.Layer.{InputPrivacyKey, InputPrivacyRule, PrivacyRule, PrivacyRules}

-- PRIVACY_KEYS
abbrev pub privacy_keys : List String
privacy_keys = "statusTimestamp" ∷ "chatInvite" ∷ "phoneNumber" ∷ []

pub record PrivacyRuleSpec : Type 0 where
  pub kind : String
  pub chats : List ℤ

pub record PrivacyRuleDto : Type 0 where
  pub kind : String
  pub users : List ℤ
  pub chats : List ℤ

pub record PrivacyRulesDto : Type 0 where
  pub key : String
  pub rules : List PrivacyRuleDto
  pub chats : List ℤ
  pub users : List ℤ

unfoldable pub key_arms : Table InputPrivacyKey
key_arms =
    ("statusTimestamp", InputPrivacyKey.status_timestamp)
    ∷ ("chatInvite", InputPrivacyKey.chat_invite)
    ∷ ("phoneNumber", InputPrivacyKey.phone_number)
    ∷ []

unfoldable pub privacy_key_input : String → Panicking (Result InputPrivacyKey)
privacy_key_input key =
    if contains privacy_keys key
    then elim (match_arms key key_arms) [ some input ↦ some (ok input) | none ↦ none ]
    else some (err (unsupported_privacy_key key))

-- The arms of `privacy_rule_input`, without the last.
unfoldable pub rule_arms : Table (PrivacyRuleSpec → Result InputPrivacyRule)
rule_arms =
    ("allowAll", λ spec. ok InputPrivacyRule.allow_all)
    ∷ ("disallowAll", λ spec. ok InputPrivacyRule.disallow_all)
    ∷ ("allowContacts", λ spec. ok InputPrivacyRule.allow_contacts)
    ∷ ("disallowContacts", λ spec. ok InputPrivacyRule.disallow_contacts)
    ∷ ("allowChatParticipants", λ spec. ok (InputPrivacyRule.allow_chat_participants spec.chats))
    ∷ (
      "disallowChatParticipants",
      λ spec. ok (InputPrivacyRule.disallow_chat_participants spec.chats),
    )
    ∷ ("allowCloseFriends", λ spec. ok InputPrivacyRule.allow_close_friends)
    ∷ ("allowPremium", λ spec. ok InputPrivacyRule.allow_premium)
    ∷ ("allowBots", λ spec. ok InputPrivacyRule.allow_bots)
    ∷ ("disallowBots", λ spec. ok InputPrivacyRule.disallow_bots)
    ∷ ("allowUsers", λ spec. err (rule_needs_access_hashes spec.kind))
    ∷ ("disallowUsers", λ spec. err (rule_needs_access_hashes spec.kind))
    ∷ []

unfoldable pub privacy_rule_input : PrivacyRuleSpec → Result InputPrivacyRule
privacy_rule_input spec = elim (match_arms spec.kind rule_arms) [
  | some arm ↦ arm spec
  | none ↦ err (unsupported_privacy_rule spec.kind)
]

abbrev rule_dto : String → (users chats : List ℤ) → PrivacyRuleDto
rule_dto kind users chats = record { kind = kind; users = users; chats = chats }

unfoldable pub privacy_rule_dto : PrivacyRule → PrivacyRuleDto
privacy_rule_dto PrivacyRule.allow_contacts = rule_dto "allowContacts" [] []
privacy_rule_dto PrivacyRule.allow_all = rule_dto "allowAll" [] []
privacy_rule_dto (PrivacyRule.allow_users ids) = rule_dto "allowUsers" ids []
privacy_rule_dto PrivacyRule.disallow_contacts = rule_dto "disallowContacts" [] []
privacy_rule_dto PrivacyRule.disallow_all = rule_dto "disallowAll" [] []
privacy_rule_dto (PrivacyRule.disallow_users ids) = rule_dto "disallowUsers" ids []
privacy_rule_dto (PrivacyRule.allow_chat_participants ids) = rule_dto "allowChatParticipants" [] ids
privacy_rule_dto (PrivacyRule.disallow_chat_participants ids) =
    rule_dto "disallowChatParticipants" [] ids
privacy_rule_dto PrivacyRule.allow_close_friends = rule_dto "allowCloseFriends" [] []
privacy_rule_dto PrivacyRule.allow_premium = rule_dto "allowPremium" [] []
privacy_rule_dto PrivacyRule.allow_bots = rule_dto "allowBots" [] []
privacy_rule_dto PrivacyRule.disallow_bots = rule_dto "disallowBots" [] []

unfoldable pub privacy_rules_dto : String → PrivacyRules → PrivacyRulesDto
privacy_rules_dto key rules = record {
  key = key;
  rules = map privacy_rule_dto rules.rules;
  chats = rules.chats;
  users = rules.users;
}

-- A panic ends the operation.
abbrev with_key {ℓ} :
    {A : Type ℓ}
    → Panicking (Result InputPrivacyKey)
    → (InputPrivacyKey → Result A)
    → Panicking (Result A)
with_key none f = none
with_key (some (ok key)) f = some (f key)
with_key (some (err e)) f = some (err e)

unfoldable pub get_privacy :
    (InputPrivacyKey → Result PrivacyRules) → String → Panicking (Result PrivacyRulesDto)
get_privacy invoke key =
    with_key (privacy_key_input key)
      (λ input. do rules ← invoke input; ok (privacy_rules_dto key rules))

unfoldable pub set_privacy :
    (InputPrivacyKey → List InputPrivacyRule → Result PrivacyRules)
    → String
    → List PrivacyRuleSpec
    → Panicking (Result PrivacyRulesDto)
set_privacy invoke key specs = with_key (privacy_key_input key) (λ input. do
  sent ← try_map privacy_rule_input specs
  rules ← invoke input sent
  ok (privacy_rules_dto key rules))
