-- ===== src/Contacts/Requests.antt =====
-- The payloads and the plan of native/src/ops/contacts.rs, and the objects of the layer that they meet.
use kotlogram.Base.{ℕ, ◌-◌, ◌^◌, ltb, Bool, Option, none, some, if◌then◌else◌}
use kotlogram.Base.Int.{ℤ, pos, neg, leb_ℤ}
use kotlogram.Dialogs.{or_default}
use kotlogram.Users.Documents.{UserDto}
use kotlogram.Client.Documents.{PeerDto}
use kotlogram.Contacts.{max_contacts_limit}
use kotlogram.Contacts.Documents.{PopularInviteDto, ContactPeerDto}

-- The layer's answers, and the payloads.
pub record Contact : Type 0 where
  pub user_id : ℤ
  pub is_mutual : Bool

pub record ImportedContact : Type 0 where
  pub user_id : ℤ
  pub client_id : ℤ

pub record PopularContact : Type 0 where
  pub client_id : ℤ
  pub importers : ℤ

pub record ImportContactPayload {ℓ} (Text : Type ℓ) : Type ℓ where
  pub client_id : ℤ
  pub phone : Text
  pub first_name : Text
  pub last_name : Text

pub record InputPhoneContact {ℓ} (Text : Type ℓ) : Type ℓ where
  pub client_id : ℤ
  pub phone : Text
  pub first_name : Text
  pub last_name : Text
  pub note : Option Text

pub record GetBlockedPayload : Type 0 where
  pub my_stories_from : Bool
  pub offset : ℤ
  pub limit : Option ℤ
  pub all : Bool

pub data BlockedPlan : Type 0 where
  every : BlockedPlan
  page : (offset limit : ℤ) → BlockedPlan

pub record SearchContactsPayload {ℓ} (Text : Type ℓ) : Type ℓ where
  pub q : Text
  pub broadcasts : Bool
  pub bots : Bool
  pub limit : Option ℤ

-- clamp(1, MAX_CONTACTS_LIMIT)
unfoldable pub clamped_limit : ℤ → ℤ
clamped_limit limit =
    if leb_ℤ limit (pos 0)
    then pos 1
    else if leb_ℤ limit (pos max_contacts_limit)
    then limit
    else pos max_contacts_limit

unfoldable pub blocked_plan : GetBlockedPayload → BlockedPlan
blocked_plan payload =
    if payload.all
    then BlockedPlan.every
    else BlockedPlan.page payload.offset
        (clamped_limit (or_default (pos max_contacts_limit) payload.limit))

-- The `i32` of thirty-two bits.
unfoldable pub signed_32 : ℕ → ℤ
signed_32 bits = if ltb bits (2 ^ 31) then pos bits else neg (pos (2 ^ 32 - bits))

unfoldable pub split : Option ContactPeerDto → Option UserDto × Option PeerDto
split none = (none, none)
split (some entry) = (entry.user, some entry.peer)

unfoldable pub phone_contact {ℓ} :
    {Text : Type ℓ} → ImportContactPayload Text → InputPhoneContact Text
phone_contact contact = record {
  client_id = contact.client_id;
  phone = contact.phone;
  first_name = contact.first_name;
  last_name = contact.last_name;
  note = none;
}

unfoldable pub popular_invite_dto : PopularContact → PopularInviteDto
popular_invite_dto invite = record { client_id = invite.client_id; importers = invite.importers }
