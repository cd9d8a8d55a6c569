-- ===== src/Dispatch/Inventory.antt =====
-- The inventory and the routes agree, and no module hides another's operation.
use mathlib.Core.List.{flatten}
use kotlogram.Base.{
  String, arith, true, false, ◌≡◌, refl, ap, ◌∙◌, sym, Option, none, some, List, [], ◌∷◌, ◌++◌, All,
  Option-cases, ◌⊎◌, inl, inr,
}
use kotlogram.Error.{Result, err, unsupported_operation}
use kotlogram.Dispatch.Handlers.{Handler}
use kotlogram.Dispatch.Table.{
  Table, match_arms, names, is_some, contains, distinct, is_some-match_arms, match_arms-nil,
  match_arms-append_none, match_arms-append_some, distinct-apart,
}
use kotlogram.Dispatch.{routes, find_route, route, all_operations, dispatch}
use kotlogram.Dispatch.Account
use kotlogram.Dispatch.Auth
use kotlogram.Dispatch.Chatlists
use kotlogram.Dispatch.Messages
use kotlogram.Dispatch.Chats
use kotlogram.Dispatch.Contacts
use kotlogram.Dispatch.Dialogs
use kotlogram.Dispatch.Updates
use kotlogram.Dispatch.Media
use kotlogram.Dispatch.Stickers
use kotlogram.Dispatch.Files
use kotlogram.Dispatch.Folders
use kotlogram.Dispatch.Inline
use kotlogram.Dispatch.Actions
use kotlogram.Dispatch.Markup
use kotlogram.Dispatch.Raw
use kotlogram.Dispatch.Users

abbrev tables : List (Table Handler)
tables =
    Account.arms ∷ Auth.arms ∷ Chatlists.arms ∷ Messages.arms ∷ Chats.arms ∷ Contacts.arms
    ∷ Dialogs.arms ∷ Updates.arms ∷ Media.arms ∷ Stickers.arms ∷ Files.arms ∷ Folders.arms
    ∷ Inline.arms ∷ Actions.arms ∷ Markup.arms ∷ Raw.arms ∷ Users.arms ∷ []

abbrev by_arms : List (Table Handler) → List (String → Option Handler)
by_arms [] = []
by_arms (t ∷ ts) = (λ operation. match_arms operation t) ∷ by_arms ts

-- Trying tables in turn is searching them joined.
find_route-by_arms :
    (operation : String) (ts : List (Table Handler))
    → find_route operation (by_arms ts) ≡ match_arms operation (flatten ts)
unfolding find_route flatten
find_route-by_arms operation [] = sym (match_arms-nil operation)
find_route-by_arms operation (t ∷ ts) = elim (Option-cases (match_arms operation t)) [
  | inl missing ↦
      rw (missing, find_route, match_arms-append_none operation t (flatten ts) missing)
        (find_route-by_arms operation ts)
  | inr (h, found) ↦ rw (found, find_route, match_arms-append_some operation t (flatten ts) h found)
]

route-tables : (operation : String) → route operation ≡ match_arms operation (flatten tables)
unfolding route Account.route Auth.route Chatlists.route Messages.route Chats.route Contacts.route
    Dialogs.route Updates.route Media.route Stickers.route Files.route Folders.route Inline.route
    Actions.route Markup.route Raw.route Users.route match_arms
route-tables operation = find_route-by_arms operation tables

names-tables : names (flatten tables) ≡ all_operations
unfolding all_operations flatten
names-tables = refl

-- An operation is routed to a handler exactly if the inventory declares it.
pub route-all_operations :
    (operation : String) → is_some (route operation) ≡ contains all_operations operation
route-all_operations operation =
    rw (route-tables operation, ← names-tables) (is_some-match_arms operation (flatten tables))

-- No two of the names are the same.
all_distinct : distinct (names (flatten tables)) ≡ true
unfolding flatten
all_distinct = refl

-- A table's answer is that of the tables joined, where no name is repeated.
abbrev Wins : List (Table Handler) → Table Handler → Type 0
Wins all t =
    (operation : String) (h : Handler)
    → match_arms operation t ≡ some h
    → match_arms operation (flatten all) ≡ some h

match_arms-contains :
    (operation : String) (t : Table Handler) (h : Handler)
    → match_arms operation t ≡ some h
    → contains (names t) operation ≡ true
match_arms-contains operation t h found = sym (is_some-match_arms operation t) ∙ ap is_some found

not_contained :
    (operation : String) (t : Table Handler)
    → contains (names t) operation ≡ false
    → match_arms operation t ≡ none
not_contained operation t h = elim (Option-cases (match_arms operation t)) [
  | inl missing ↦ missing
  | inr (a, found) ↦ cc (match_arms-contains operation t a found)
]

names-append : (t s : Table Handler) → names (t ++ s) ≡ names t ++ names s
names-append [] s = refl
names-append ((name, a) ∷ t) s = ap (λ l. name ∷ l) (names-append t s)

distinct-back : (xs ys : List String) → distinct (xs ++ ys) ≡ true → distinct ys ≡ true
distinct-back [] ys d = d
distinct-back (x ∷ xs) ys d = distinct-back xs ys (ground arith)

Wins-later :
    (t : Table Handler) (ts : List (Table Handler)) (s : Table Handler)
    → distinct (names (flatten (t ∷ ts))) ≡ true
    → Wins ts s
    → Wins (t ∷ ts) s
unfolding flatten
Wins-later t ts s d wins operation h found =
    let later : match_arms operation (flatten ts) ≡ some h = wins operation h found in
    let apart : distinct (names t ++ names (flatten ts)) ≡ true = rw names-append at d in
    let absent =
      distinct-apart (names t) (names (flatten ts)) operation apart
        (match_arms-contains operation (flatten ts) h later) in
    match_arms-append_none operation t (flatten ts) (not_contained operation t absent) ∙ later

All-later :
    (t : Table Handler) (ts ss : List (Table Handler))
    → distinct (names (flatten (t ∷ ts))) ≡ true
    → All (Wins ts) ss
    → All (Wins (t ∷ ts)) ss
All-later t ts [] d wins = tt
All-later t ts (s ∷ ss) d (this, others) = (Wins-later t ts s d this, All-later t ts ss d others)

flatten-Wins : (ts : List (Table Handler)) → distinct (names (flatten ts)) ≡ true → All (Wins ts) ts
unfolding flatten
flatten-Wins [] d = tt
flatten-Wins (t ∷ ts) d =
    let back : distinct (names (flatten ts)) ≡ true =
      distinct-back (names t) (names (flatten ts)) (rw names-append at d) in
    (
      (λ operation h found. match_arms-append_some operation t (flatten ts) h found),
      All-later t ts ts d (flatten-Wins ts back),
    )

-- A module answers nothing, or what `route` answers.
abbrev pub Agrees : String → (String → Option Handler) → Type 0
Agrees operation r = (r operation ≡ none) ⊎ (r operation ≡ route operation)

Wins-Agrees :
    (operation : String) (t : Table Handler)
    → Wins tables t
    → Agrees operation (λ s. match_arms s t)
Wins-Agrees operation t wins = elim (Option-cases (match_arms operation t)) [
  | inl missing ↦ inl missing
  | inr (h, found) ↦ inr (found ∙ sym (wins operation h found) ∙ sym (route-tables operation))
]

All-Agrees :
    (operation : String) (ts : List (Table Handler))
    → All (Wins tables) ts
    → All (Agrees operation) (by_arms ts)
All-Agrees operation [] wins = tt
All-Agrees operation (t ∷ ts) (this, others) =
    (Wins-Agrees operation t this, All-Agrees operation ts others)

-- No module hides another's operation: for every operation name, each of the seventeen modules
-- either does not route it or routes it to the very handler that `route` finds.
pub routes-Agrees : (operation : String) → All (Agrees operation) routes
unfolding Account.route Auth.route Chatlists.route Messages.route Chats.route Contacts.route
    Dialogs.route Updates.route Media.route Stickers.route Files.route Folders.route Inline.route
    Actions.route Markup.route Raw.route Users.route match_arms
routes-Agrees operation = All-Agrees operation tables (flatten-Wins tables all_distinct)

-- An operation that the inventory declares is run by the handler that it is routed to.
pub dispatch-declared :
    {Native : Type 0} (handle : (Handler → Native → String → Result String)) (native : Native)
    (operation payload : String)
    → contains all_operations operation ≡ true
    → (h : Handler) × (route operation ≡ some h)
      × (dispatch handle native operation payload ≡ handle h native payload)
unfolding dispatch
dispatch-declared handle native operation payload declared = elim (Option-cases (route operation)) [
  | inl missing ↦
      let absent : contains all_operations operation ≡ false =
        sym (route-all_operations operation) ∙ ap is_some missing in
      cc
  | inr (h, found) ↦ (h, found, rw (found, dispatch))
]

-- An operation that the inventory does not declare is refused with its name.
pub dispatch-undeclared :
    {Native : Type 0} (handle : (Handler → Native → String → Result String)) (native : Native)
    (operation payload : String)
    → contains all_operations operation ≡ false
    → dispatch handle native operation payload ≡ err (unsupported_operation operation)
unfolding dispatch
dispatch-undeclared handle native operation payload undeclared =
    elim (Option-cases (route operation)) [
      | inl missing ↦ rw (missing, dispatch)
      | inr (h, found) ↦
          let present : contains all_operations operation ≡ true =
            sym (route-all_operations operation) ∙ ap is_some found in
          cc
    ]
