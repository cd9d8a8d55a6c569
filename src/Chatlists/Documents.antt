-- ===== src/Chatlists/Documents.antt =====
-- native/src/dto/chatlists.rs: the documents of shared folders.
use kotlogram.Base.{ℕ, String, Bool, true, List, [], map, Option, none, some}
use kotlogram.Base.Int.{ℤ, pos}
use kotlogram.Error.{Result, map_ok, try_map}
use kotlogram.Exec.{Exec, pure, lift, ◌>>=◌}
use kotlogram.Chats.{PeerKind, user, chat, channel}
use kotlogram.Format.Documents.{MessageEntityDto, message_entity_dto}
use kotlogram.Users.Documents.{UserDto, user_dto}
use kotlogram.Client.{Telegram, KnownPeers}
use kotlogram.Client.Documents.{Described, PeerDto, project}
use kotlogram.Chatlists.Objects.{Objects, find_id}
use kotlogram.Chatlists.Slug.{slug_of}
use kotlogram.Chatlists.Layer.{
  ExportedChatlistInvite, ExportedInvites, ChatlistInvite, ChatlistUpdates, Updates,
}

pub record ChatlistPeerDto : Type 0 where
  pub id : ℤ
  pub kind : String

pub record ExportedInviteDto : Type 0 where
  pub title : String
  pub slug : List ℕ
  pub url : List ℕ
  pub peers : List ChatlistPeerDto

pub record ExportedInvitesDto : Type 0 where
  pub invites : List ExportedInviteDto
  pub chats : List PeerDto
  pub users : List UserDto

pub record NewChatlistInviteDto : Type 0 where
  pub title_noanimate : Bool
  pub title : String
  pub title_entities : List MessageEntityDto
  pub emoticon : Option String
  pub peers : List PeerDto
  pub chats : List PeerDto
  pub users : List UserDto

pub record JoinedChatlistInviteDto : Type 0 where
  pub filter_id : ℤ
  pub missing_peers : List PeerDto
  pub already_peers : List PeerDto
  pub chats : List PeerDto
  pub users : List UserDto

pub data ChatlistInviteDto : Type 0 where
  new_invite : NewChatlistInviteDto → ChatlistInviteDto
  already_joined : JoinedChatlistInviteDto → ChatlistInviteDto

pub record ChatlistUpdatesDto : Type 0 where
  pub missing_peers : List PeerDto
  pub chats : List PeerDto
  pub users : List UserDto

pub record ChatlistUpdatesAckDto : Type 0 where
  pub acknowledged : Bool
  pub peers : List PeerDto

unfoldable pub peer_kind_name : PeerKind → String
peer_kind_name user = "user"
peer_kind_name chat = "chat"
peer_kind_name channel = "channel"

-- id.unwrap_or(0)
abbrev or_zero : Option ℤ → ℤ
or_zero none = pos 0
or_zero (some id) = id

-- option.cloned().map(f)
abbrev pub made {ℓ κ} : {A : Type ℓ} {B : Type κ} → (A → B) → Option A → Option B
made f none = none
made f (some a) = some (f a)

module _ (t : Telegram) (d : Described t) (o : Objects t) where
  open o use {LayerPeer, RawUser, RawChat}

  unfoldable pub bare_peer_dto : LayerPeer → ChatlistPeerDto
  bare_peer_dto peer = record {
    id = or_zero (o.bot_api_dialog_id peer);
    kind = peer_kind_name (o.kind peer);
  }

  unfoldable pub bare_peers_dto : List LayerPeer → List ChatlistPeerDto
  bare_peers_dto peers = map bare_peer_dto peers

  unfoldable pub leave_suggestions_dto : List LayerPeer → List ChatlistPeerDto
  leave_suggestions_dto peers = bare_peers_dto peers

  -- The document under the slug of the invite's URL.
  abbrev invite_document : ExportedChatlistInvite t o → List ℕ → ExportedInviteDto
  invite_document invite slug = record {
    title = invite.title;
    slug = slug;
    url = invite.url;
    peers = bare_peers_dto invite.peers;
  }

  unfoldable pub exported_invite_dto : ExportedChatlistInvite t o → Result ExportedInviteDto
  exported_invite_dto invite = map_ok (invite_document invite) (slug_of invite.url)

  -- The object that a bare id stands for, as a peer.
  unfoldable pub object_of : List RawChat → List RawUser → PeerKind → ℤ → Option t.Peer
  object_of chats users user bare = made o.user_peer (find_id o.user_id bare users)
  object_of chats users chat bare = made o.chat_peer (find_id o.chat_id bare chats)
  object_of chats users channel bare = made o.chat_peer (find_id o.chat_id bare chats)

  -- What the loop of `peers_dto` goes on with.
  unfoldable pub resolved : List RawChat → List RawUser → LayerPeer → Option t.Peer
  resolved chats users peer = elim (o.bare_id peer) [
    | none ↦ none
    | some bare ↦ object_of chats users (o.kind peer) bare
  ]

  unfoldable pub peers_dto :
      List LayerPeer → List RawChat → List RawUser → Exec (KnownPeers t) (List PeerDto)
  peers_dto peers chats users = project t d (resolved chats users) peers

  -- Every chat is its own object.
  unfoldable pub chats_dto : List RawChat → Exec (KnownPeers t) (List PeerDto)
  chats_dto chats = project t d (λ raw. some (o.chat_peer raw)) chats

  unfoldable pub users_dto : List RawUser → List UserDto
  users_dto users = map (λ raw. user_dto (o.client_user raw)) users

  unfoldable pub exported_invites_dto : ExportedInvites t o → Exec (KnownPeers t) ExportedInvitesDto
  exported_invites_dto result = do
    invites ← lift (try_map exported_invite_dto result.invites)
    chats ← chats_dto result.chats
    pure (record { invites = invites; chats = chats; users = users_dto result.users })

  unfoldable pub chatlist_invite_dto : ChatlistInvite t o → Exec (KnownPeers t) ChatlistInviteDto
  chatlist_invite_dto (ChatlistInvite.invite i) = do
    peers ← peers_dto i.peers i.chats i.users
    chats ← chats_dto i.chats
    pure (
        ChatlistInviteDto.new_invite (record {
          title_noanimate = i.title_noanimate;
          title = i.title.text;
          title_entities = map message_entity_dto i.title.entities;
          emoticon = i.emoticon;
          peers = peers;
          chats = chats;
          users = users_dto i.users;
        }))
  chatlist_invite_dto (ChatlistInvite.already i) = do
    missing ← peers_dto i.missing_peers i.chats i.users
    joined ← peers_dto i.already_peers i.chats i.users
    chats ← chats_dto i.chats
    pure (
        ChatlistInviteDto.already_joined (record {
          filter_id = i.filter_id;
          missing_peers = missing;
          already_peers = joined;
          chats = chats;
          users = users_dto i.users;
        }))

  unfoldable pub chatlist_updates_dto : ChatlistUpdates t o → Exec (KnownPeers t) ChatlistUpdatesDto
  chatlist_updates_dto result = do
    missing ← peers_dto result.missing_peers result.chats result.users
    chats ← chats_dto result.chats
    pure (record { missing_peers = missing; chats = chats; users = users_dto result.users })

  unfoldable pub updated_chats : Updates t o → List RawChat
  updated_chats (Updates.combined chats) = chats
  updated_chats (Updates.updates chats) = chats
  updated_chats Updates.other = []

  unfoldable pub updates_ack_dto : Updates t o → Exec (KnownPeers t) ChatlistUpdatesAckDto
  updates_ack_dto bundle = do
    peers ← chats_dto (updated_chats bundle)
    pure (record { acknowledged = true; peers = peers })
