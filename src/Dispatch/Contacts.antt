-- ===== src/Dispatch/Contacts.antt =====
-- The operation names of native/src/ops/contacts.rs and its `route`.
use kotlogram.Base.{String, Option, List, [], ◌∷◌}
use kotlogram.Dispatch.Handlers.{
  Handler, get_contacts, import_contacts, delete_contacts, block, unblock, get_blocked, search,
}
use kotlogram.Dispatch.Table.{Table, match_arms}

abbrev pub operations : List String
operations =
    "contactsGetContacts" ∷ "contactsImportContacts" ∷ "contactsDeleteContacts" ∷ "contactsBlock"
    ∷ "contactsUnblock" ∷ "contactsGetBlocked" ∷ "contactsSearch" ∷ []

abbrev pub arms : Table Handler
arms =
    ("contactsGetContacts", get_contacts)
    ∷ ("contactsImportContacts", import_contacts)
    ∷ ("contactsDeleteContacts", delete_contacts)
    ∷ ("contactsBlock", block)
    ∷ ("contactsUnblock", unblock)
    ∷ ("contactsGetBlocked", get_blocked)
    ∷ ("contactsSearch", search)
    ∷ []

unfoldable pub route : String → Option Handler
route operation = match_arms operation arms
