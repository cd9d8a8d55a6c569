-- ===== src/Contacts/Handlers.antt =====
-- The operations of native/src/ops/contacts.rs. `invoke` is what Telegram answers to the request that an
-- operation builds.
use kotlogram.Base.{ℕ, Bool, true, false, List, [], ◌∷◌, map, Option, none, some}
use kotlogram.Base.Int.{ℤ, pos}
use kotlogram.Base.Dates.{to_millis}
use kotlogram.Error.{Result}
use kotlogram.Exec.{Exec, pure, lift, ◌>>=◌}
use kotlogram.Dialogs.{or_default}
use kotlogram.Client.{Telegram, KnownPeers, PeerTarget, resolve_peer}
use kotlogram.Client.Documents.{Described}
use kotlogram.Client.Layer.{InputPeer}
use kotlogram.Chatlists.Objects.{Objects}
use kotlogram.Contacts.{Page, Blocked, full_list, slice, max_contacts_limit, get_all_blocked}
use kotlogram.Contacts.Documents.{
  ContactDto, ContactsDto, ImportedContactDto, ImportedContactsDto, ContactPeerDto, BlockedPeerDto,
  BlockedContactsDto, FoundContactsDto, contact_users_dto, contact_peer_dto,
}
use kotlogram.Contacts.Requests.{
  Contact, ImportedContact, PopularContact, ImportContactPayload, InputPhoneContact,
  GetBlockedPayload, BlockedPlan, SearchContactsPayload, clamped_limit, blocked_plan, signed_32,
  split, phone_contact, popular_invite_dto,
}

-- What a listing keeps of what it found.
abbrev pub kept {ℓ} : {A : Type ℓ} → Option A → List A → List A
kept none rows = rows
kept (some row) rows = row ∷ rows

-- The date of a blocked peer, beside its document.
unfoldable pub blocked_row : ℤ → Option ContactPeerDto → Option BlockedPeerDto
blocked_row date none = none
blocked_row date (some projected) =
    some (record { date = to_millis date; user = projected.user; peer = projected.peer })

module _ (t : Telegram) (d : Described t) (o : Objects t) where
  open o use {LayerPeer, RawUser, RawChat}

  pub record PeerBlocked : Type 0 where
    pub peer_id : LayerPeer
    pub date : ℤ

  pub record Found : Type 0 where
    pub my_results : List LayerPeer
    pub results : List LayerPeer
    pub chats : List RawChat
    pub users : List RawUser

  pub record Contacts : Type 0 where
    pub contacts : List Contact
    pub saved_count : ℤ
    pub users : List RawUser

  pub record ImportedContacts : Type 0 where
    pub imported : List ImportedContact
    pub popular_invites : List PopularContact
    pub retry_contacts : List ℤ
    pub users : List RawUser

  unfoldable pub project_peers :
      List LayerPeer → List RawUser → List RawChat → Exec (KnownPeers t) (List ContactPeerDto)
  project_peers [] users chats = pure []
  project_peers (peer ∷ peers) users chats = do
    projected ← contact_peer_dto t d o peer users chats
    rows ← project_peers peers users chats
    pure (kept projected rows)

  unfoldable pub blocked_rows :
      List PeerBlocked → List RawUser → List RawChat → Exec (KnownPeers t) (List BlockedPeerDto)
  blocked_rows [] users chats = pure []
  blocked_rows (entry ∷ blocked) users chats = do
    projected ← contact_peer_dto t d o entry.peer_id users chats
    rows ← blocked_rows blocked users chats
    pure (kept (blocked_row entry.date projected) rows)

  unfoldable pub project_blocked :
      Page PeerBlocked RawChat RawUser → Option ℤ → Exec (KnownPeers t) BlockedContactsDto
  project_blocked page count = do
    rows ← blocked_rows page.blocked page.users page.chats
    users ← contact_users_dto t d o page.users
    pure (record { count = count; blocked = rows; users = users })

  unfoldable pub project_answer :
      Blocked PeerBlocked RawChat RawUser → Exec (KnownPeers t) BlockedContactsDto
  project_answer (full_list page) = project_blocked page none
  project_answer (slice count page) = project_blocked page (some count)

  module _
      (invoke : (Bool → (offset limit : ℤ) → Result (Blocked PeerBlocked RawChat RawUser))) where
    unfoldable pub get_blocked_page :
        Bool → (offset limit : ℤ) → Exec (KnownPeers t) BlockedContactsDto
    get_blocked_page my_stories_from offset limit = do
      answer ← lift (invoke my_stories_from offset limit)
      project_answer answer

    -- The pages that the walk asks for.
    abbrev pub blocked_at : Bool → ℕ → Result (Blocked PeerBlocked RawChat RawUser)
    blocked_at my_stories_from offset =
        invoke my_stories_from (signed_32 offset) (pos max_contacts_limit)

    unfoldable pub project_walk :
        Option (Result (Page PeerBlocked RawChat RawUser))
        → Option (Exec (KnownPeers t) BlockedContactsDto)
    project_walk none = none
    project_walk (some walked) = some (do page ← lift walked; project_blocked page none)

    unfoldable pub follow_plan :
        ℕ → Bool → BlockedPlan → Option (Exec (KnownPeers t) BlockedContactsDto)
    follow_plan fuel my_stories_from BlockedPlan.every =
        project_walk (get_all_blocked PeerBlocked RawChat RawUser fuel (blocked_at my_stories_from))
    follow_plan fuel my_stories_from (BlockedPlan.page offset limit) =
        some (get_blocked_page my_stories_from offset limit)

    -- On the fuel of the walk; `none` means that it ran out.
    unfoldable pub get_blocked :
        ℕ → GetBlockedPayload → Option (Exec (KnownPeers t) BlockedContactsDto)
    get_blocked fuel payload = follow_plan fuel payload.my_stories_from (blocked_plan payload)

  unfoldable pub search {ℓ} :
      {Text : Type ℓ} (invoke : ((broadcasts bots : Bool) (q : Text) (limit : ℤ) → Result Found))
      → SearchContactsPayload Text
      → Exec (KnownPeers t) FoundContactsDto
  search invoke payload = do
    found ← lift (
        invoke payload.broadcasts payload.bots payload.q
          (clamped_limit (or_default (pos 50) payload.limit)))
    my_results ← project_peers found.my_results found.users found.chats
    results ← project_peers found.results found.users found.chats
    users ← contact_users_dto t d o found.users
    pure (record { my_results = my_results; results = results; users = users })

  -- `peer_user` is the layer's reference of a user.
  module _ (peer_user : (ℤ → LayerPeer)) where
    unfoldable pub contact_rows :
        List Contact → List RawUser → Exec (KnownPeers t) (List ContactDto)
    contact_rows [] users = pure []
    contact_rows (contact ∷ contacts) users = do
      projected ← contact_peer_dto t d o (peer_user contact.user_id) users []
      rows ← contact_rows contacts users
      pure (
          record {
            user_id = contact.user_id;
            is_mutual = contact.is_mutual;
            user = (split projected).0;
            peer = (split projected).1;
          }
          ∷ rows)

    unfoldable pub contacts_dto : Contacts → Exec (KnownPeers t) ContactsDto
    contacts_dto contacts = do
      rows ← contact_rows contacts.contacts contacts.users
      users ← contact_users_dto t d o contacts.users
      pure (record {
        not_modified = false;
        saved_count = contacts.saved_count;
        contacts = rows;
        users = users;
      })

    -- NotModified is `none`.
    unfoldable pub contacts_answer : Option Contacts → Exec (KnownPeers t) ContactsDto
    contacts_answer none =
        pure (record { not_modified = true; saved_count = pos 0; contacts = []; users = [] })
    contacts_answer (some contacts) = contacts_dto contacts

    unfoldable pub get_contacts :
        (ℤ → Result (Option Contacts)) → ℤ → Exec (KnownPeers t) ContactsDto
    get_contacts invoke hash = do answer ← lift (invoke hash); contacts_answer answer

    unfoldable pub imported_rows :
        List ImportedContact → List RawUser → Exec (KnownPeers t) (List ImportedContactDto)
    imported_rows [] users = pure []
    imported_rows (entry ∷ imported) users = do
      projected ← contact_peer_dto t d o (peer_user entry.user_id) users []
      rows ← imported_rows imported users
      pure (
          record {
            user_id = entry.user_id;
            client_id = entry.client_id;
            user = (split projected).0;
            peer = (split projected).1;
          }
          ∷ rows)

    unfoldable pub import_contacts {ℓ} :
        {Text : Type ℓ} (invoke : (List (InputPhoneContact Text) → Result ImportedContacts))
        → List (ImportContactPayload Text)
        → Exec (KnownPeers t) ImportedContactsDto
    import_contacts invoke contacts = do
      answer ← lift (invoke (map phone_contact contacts))
      rows ← imported_rows answer.imported answer.users
      users ← contact_users_dto t d o answer.users
      pure (record {
        imported = rows;
        retry_contacts = answer.retry_contacts;
        popular_invites = map popular_invite_dto answer.popular_invites;
        users = users;
      })

  -- The requests that only name peers, each with what Telegram answers to it.
  module _ {InputUser : Type 0} (input_user : (t.PeerRef → InputUser)) where
    unfoldable pub users_input : List PeerTarget → Exec (KnownPeers t) (List InputUser)
    users_input [] = pure []
    users_input (target ∷ targets) = do
      peer ← resolve_peer t target
      ids ← users_input targets
      pure (input_user peer ∷ ids)

    unfoldable pub delete_contacts :
        (List InputUser → Result (Unit {0})) → List PeerTarget → Exec (KnownPeers t) (Unit {0})
    delete_contacts invoke targets = do ids ← users_input targets; lift (invoke ids)

  module _ (input_of : (t.PeerRef → InputPeer))
      (invoke : ((my_stories_from : Bool) (id : InputPeer) → Result (Unit {0}))) where
    unfoldable pub block : PeerTarget → Bool → Exec (KnownPeers t) (Unit {0})
    block target my_stories_from = do
      peer ← resolve_peer t target
      lift (invoke my_stories_from (input_of peer))

    unfoldable pub unblock : PeerTarget → Bool → Exec (KnownPeers t) (Unit {0})
    unblock target my_stories_from = do
      peer ← resolve_peer t target
      lift (invoke my_stories_from (input_of peer))
