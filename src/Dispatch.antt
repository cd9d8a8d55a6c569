-- ===== src/Dispatch.antt =====
-- `dispatch` of native/src/ops/mod.rs: an operation name is routed to the handler of the module that
-- declares it. The tables of the modules are theirs; what a handler does is an argument here.
pub mod Table
pub mod Handlers
pub mod Account
pub mod Auth
pub mod Chatlists
pub mod Messages
pub mod Chats
pub mod Contacts
pub mod Dialogs
pub mod Updates
pub mod Media
pub mod Stickers
pub mod Files
pub mod Folders
pub mod Inline
pub mod Actions
pub mod Markup
pub mod Raw
pub mod Users
pub mod Inventory
mod Examples
use mathlib.Core.List.{flatten}
use kotlogram.Base.{String, Option, none, some, List, [], ◌∷◌}
use kotlogram.Error.{Result, ok, err, unsupported_operation}
use kotlogram.Dispatch.Handlers.{Handler}
use kotlogram.Dispatch.Account
use kotlogram.Dispatch.Auth
use kotlogram.Dispatch.Chatlists
use kotlogram.Dispatch.Messages
use kotlogram.Dispatch.Chats
use kotlogram.Dispatch.Contacts
use kotlogram.Dispatch.Dialogs
use kotlogram.Dispatch.Updates
use kotlogram.Dispatch.Media
use kotlogram.Dispatch.Stickers
use kotlogram.Dispatch.Files
use kotlogram.Dispatch.Folders
use kotlogram.Dispatch.Inline
use kotlogram.Dispatch.Actions
use kotlogram.Dispatch.Markup
use kotlogram.Dispatch.Raw
use kotlogram.Dispatch.Users

-- ROUTES
abbrev pub routes : List (String → Option Handler)
routes =
    Account.route ∷ Auth.route ∷ Chatlists.route ∷ Messages.route ∷ Chats.route ∷ Contacts.route
    ∷ Dialogs.route ∷ Updates.route ∷ Media.route ∷ Stickers.route ∷ Files.route ∷ Folders.route
    ∷ Inline.route ∷ Actions.route ∷ Markup.route ∷ Raw.route ∷ Users.route ∷ []

-- INVENTORY
abbrev pub inventory : List (List String)
inventory =
    Account.operations ∷ Auth.operations ∷ Chatlists.operations ∷ Messages.operations
    ∷ Chats.operations ∷ Contacts.operations ∷ Dialogs.operations ∷ Updates.operations
    ∷ Media.operations ∷ Stickers.operations ∷ Files.operations ∷ Folders.operations
    ∷ Inline.operations ∷ Actions.operations ∷ Markup.operations ∷ Raw.operations ∷ Users.operations
    ∷ []

-- routes.iter().find_map(|route| route(operation))
unfoldable pub find_route : String → List (String → Option Handler) → Option Handler
find_route operation [] = none
find_route operation (r ∷ rest) = elim (r operation) [
  | some handler ↦ some handler
  | none ↦ find_route operation rest
]

unfoldable pub route : String → Option Handler
route operation = find_route operation routes

unfoldable pub all_operations : List String
all_operations = flatten inventory

module _ {Native : Type 0} (handle : Handler → Native → String → Result String) where
  unfoldable pub dispatch : Native → String → String → Result String
  dispatch native operation payload = elim (route operation) [
    | some handler ↦ handle handler native payload
    | none ↦ err (unsupported_operation operation)
  ]
