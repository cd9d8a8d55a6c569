-- ===== src/Dialogs.antt =====
-- Listing dialogs page by page (native/src/ops/dialogs.rs): the payload, the plan and the cursor. The
-- dialogs and the listing stand in modules of their own.
pub mod Layer
pub mod Documents
pub mod Listing
pub mod Registering
pub mod Pages
mod Examples
use kotlogram.Base.{ℕ, Bool, false, Option, none, some, ltb, if◌then◌else◌}
use kotlogram.Base.Int.{ℤ}

pub record DialogsPayload : Type 0 where
  pub all : Option Bool
  pub limit : Option ℕ
  pub offset_peer : Option ℤ
  pub offset_id : Option ℤ
  pub offset_date : Option ℤ

pub record DialogsCursor : Type 0 where
  pub peer : ℤ
  pub id : ℤ
  pub date : ℤ

pub data DialogsPlan : Type 0 where
  every : DialogsPlan
  page : ℕ → Option DialogsCursor → DialogsPlan

-- usize::clamp
unfoldable pub clamp : ℕ → ℕ → ℕ → ℕ
clamp low high n = if ltb n low then low else if ltb high n then high else n

unfoldable pub from_payload : DialogsPayload → Option DialogsCursor
from_payload payload = elim payload.offset_peer [
  | none ↦ none
  | some peer ↦ elim payload.offset_id [
    | none ↦ none
    | some id ↦ elim payload.offset_date [
      | none ↦ none
      | some date ↦ some (record { peer = peer; id = id; date = date })
    ]
  ]
]

abbrev pub or_default {ℓ} : {A : Type ℓ} → A → Option A → A
or_default a none = a
or_default a (some b) = b

unfoldable pub dialogs_plan : DialogsPayload → DialogsPlan
dialogs_plan payload =
    if or_default false payload.all
    then every
    else page (clamp 1 100 (or_default 50 payload.limit)) (from_payload payload)
