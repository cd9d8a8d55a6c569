-- ===== src/Contacts.antt =====
-- The blocked peers of native/src/ops/contacts.rs: the walk of `get_all_blocked`,
-- over what Telegram answers to `contacts.getBlocked` at an offset. A peer, a chat and a user are
-- values of the layer. The offset is an `i32`, whose bits are kept as a number below 2 ^ 32.
pub mod Walk
pub mod Documents
pub mod Requests
pub mod Handlers
pub mod Described
pub mod Answered
pub mod Whole
mod Examples
use kotlogram.Base.{
  ℕ, zero, suc, ◌+◌, ◌%◌, ◌^◌, Bool, List, [], ◌∷◌, ◌++◌, length, Option, none, some, ltb,
  if◌then◌else◌,
}
use kotlogram.Base.Int.{ℤ}
use kotlogram.Error.{Result, ok, err}

-- MAX_CONTACTS_LIMIT
abbrev pub max_contacts_limit : ℕ
max_contacts_limit = 100

module _ (PeerBlocked Chat User : Type 0) where
  -- The parts of an answer, and what the walk has collected of them.
  pub record Page : Type 0 where
    pub blocked : List PeerBlocked
    pub chats : List Chat
    pub users : List User

  -- The layer's `contacts.Blocked`.
  pub data Blocked : Type 0 where
    full_list : Page → Blocked
    slice : (count : ℤ) → Page → Blocked

  abbrev pub page_of : Blocked → Page
  page_of (full_list page) = page
  page_of (slice count page) = page

  unfoldable pub extend : Page → Page → Page
  extend collected page = record {
    blocked = collected.blocked ++ page.blocked;
    chats = collected.chats ++ page.chats;
    users = collected.users ++ page.users;
  }

  -- The loop, on fuel; `none` means that the fuel ran out.
  unfoldable pub walk : ℕ → (ℕ → Result Blocked) → ℕ → Page → Option (Result Page)
  walk zero telegram offset collected = none
  walk (suc fuel) telegram offset collected = elim (telegram offset) [
    | err e ↦ some (err e)
    | ok answer ↦
        let page = page_of answer in
        let rest =
          walk fuel telegram ((offset + length page.blocked) % 2 ^ 32) (extend collected page) in
        if ltb (length page.blocked) max_contacts_limit
        then some (ok (extend collected page))
        else rest
  ]

  unfoldable pub get_all_blocked : ℕ → (ℕ → Result Blocked) → Option (Result Page)
  get_all_blocked fuel telegram =
      walk fuel telegram 0 (record { blocked = []; chats = []; users = [] })
