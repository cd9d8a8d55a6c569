-- ===== src/Contacts/Documents.antt =====
-- native/src/dto/contacts.rs: the documents of contacts. An account stands beside its registered peer.
use kotlogram.Base.{Bool, List, [], ◌∷◌, Option, none, some}
use kotlogram.Base.Int.{ℤ}
use kotlogram.Exec.{Exec, pure, ◌>>=◌}
use kotlogram.Chats.{PeerKind, user, chat, channel}
use kotlogram.Users.Documents.{UserDto, user_dto}
use kotlogram.Client.{Telegram, KnownPeers}
use kotlogram.Client.Documents.{Described, PeerDto, peer_dto}
use kotlogram.Chatlists.Objects.{Objects, find_id}

pub record ContactUserDto : Type 0 where
  pub user : UserDto
  pub peer : PeerDto

pub record ContactDto : Type 0 where
  pub user_id : ℤ
  pub is_mutual : Bool
  pub user : Option UserDto
  pub peer : Option PeerDto

pub record ContactsDto : Type 0 where
  pub not_modified : Bool
  pub saved_count : ℤ
  pub contacts : List ContactDto
  pub users : List ContactUserDto

pub record ImportedContactDto : Type 0 where
  pub user_id : ℤ
  pub client_id : ℤ
  pub user : Option UserDto
  pub peer : Option PeerDto

pub record PopularInviteDto : Type 0 where
  pub client_id : ℤ
  pub importers : ℤ

pub record ImportedContactsDto : Type 0 where
  pub imported : List ImportedContactDto
  pub retry_contacts : List ℤ
  pub popular_invites : List PopularInviteDto
  pub users : List ContactUserDto

pub record ContactPeerDto : Type 0 where
  pub user : Option UserDto
  pub peer : PeerDto

pub record BlockedPeerDto : Type 0 where
  pub date : ℤ
  pub user : Option UserDto
  pub peer : PeerDto

pub record BlockedContactsDto : Type 0 where
  pub count : Option ℤ
  pub blocked : List BlockedPeerDto
  pub users : List ContactUserDto

pub record FoundContactsDto : Type 0 where
  pub my_results : List ContactPeerDto
  pub results : List ContactPeerDto
  pub users : List ContactUserDto

module _ (t : Telegram) (d : Described t) (o : Objects t) where
  open o use {LayerPeer, RawUser, RawChat}

  unfoldable pub contact_user_dto : RawUser → Exec (KnownPeers t) ContactUserDto
  contact_user_dto raw = do
    peer ← peer_dto t d (o.user_peer raw)
    pure (record { user = user_dto (o.client_user raw); peer = peer })

  unfoldable pub contact_users_dto : List RawUser → Exec (KnownPeers t) (List ContactUserDto)
  contact_users_dto [] = pure []
  contact_users_dto (raw ∷ users) = do
    row ← contact_user_dto raw
    rows ← contact_users_dto users
    pure (row ∷ rows)

  unfoldable pub user_found : Option RawUser → Exec (KnownPeers t) (Option ContactPeerDto)
  user_found none = pure none
  user_found (some raw) = do
    projected ← contact_user_dto raw
    pure (some (record { user = some projected.user; peer = projected.peer }))

  unfoldable pub chat_found : Option RawChat → Exec (KnownPeers t) (Option ContactPeerDto)
  chat_found none = pure none
  chat_found (some raw) = do
    peer ← peer_dto t d (o.chat_peer raw)
    pure (some (record { user = none; peer = peer }))

  unfoldable pub contact_of :
      List RawUser → List RawChat → PeerKind → ℤ → Exec (KnownPeers t) (Option ContactPeerDto)
  contact_of users chats user bare = user_found (find_id o.user_id bare users)
  contact_of users chats chat bare = chat_found (find_id o.chat_id bare chats)
  contact_of users chats channel bare = chat_found (find_id o.chat_id bare chats)

  unfoldable pub contact_with_id :
      List RawUser
      → List RawChat
      → PeerKind
      → Option ℤ
      → Exec (KnownPeers t) (Option ContactPeerDto)
  contact_with_id users chats kind none = pure none
  contact_with_id users chats kind (some bare) = contact_of users chats kind bare

  unfoldable pub contact_peer_dto :
      LayerPeer → List RawUser → List RawChat → Exec (KnownPeers t) (Option ContactPeerDto)
  contact_peer_dto peer users chats = contact_with_id users chats (o.kind peer) (o.bare_id peer)
