-- ===== src/Client/Documents.antt =====
-- The document of a peer (native/src/dto/peer.rs), which registers it, and the loop that the listings of
-- native/src/dto/folders.rs and native/src/dto/chatlists.rs run over their peers.
use kotlogram.Base.{ℕ, String, Bool, List, [], ◌∷◌, Option, none, some}
use kotlogram.Base.Int.{ℤ, pos}
use kotlogram.Exec.{Exec, pure, ◌>>=◌}
use kotlogram.Chats.Types.{ChatAdminRights, ChatPermissionsDto}
use kotlogram.Chats.Rights.{permissions_of}
use kotlogram.Client.{Telegram, KnownPeers, register_peer}

-- How grammers splits a peer, with what only one of the shapes answers.
pub data Shape : Type 0 where
  user community : Shape
  group : (is_megagroup : Bool) → Shape
  channel : (admin_rights : Option ChatAdminRights) → Shape

-- What grammers answers of a peer.
pub record Described (t : Telegram) : Type 0 where
  pub shape : t.Peer → Shape
  pub bot_api_dialog_id : t.Peer → Option ℤ
  pub username : t.Peer → Option String
  pub name : t.Peer → Option String
  pub usernames : t.Peer → List String
  pub has_photo : t.Peer → Bool

pub record PeerDto : Type 0 where
  pub native_handle : ℕ
  pub id : ℤ
  pub kind : String
  pub username : Option String
  pub name : Option String
  pub usernames : List String
  pub is_megagroup : Option Bool
  pub has_photo : Bool
  pub permissions : Option ChatPermissionsDto

unfoldable pub kind_name : Shape → String
kind_name Shape.user = "user"
kind_name (Shape.group megagroup) = "group"
kind_name (Shape.channel rights) = "channel"
kind_name Shape.community = "community"

unfoldable pub megagroup_of : Shape → Option Bool
megagroup_of Shape.user = none
megagroup_of (Shape.group megagroup) = some megagroup
megagroup_of (Shape.channel rights) = none
megagroup_of Shape.community = none

unfoldable pub shape_permissions : Shape → Option ChatPermissionsDto
shape_permissions Shape.user = none
shape_permissions (Shape.group megagroup) = none
shape_permissions (Shape.channel none) = none
shape_permissions (Shape.channel (some rights)) = some (permissions_of rights)
shape_permissions Shape.community = none

-- id.unwrap_or(0)
abbrev or_zero : Option ℤ → ℤ
or_zero none = pos 0
or_zero (some id) = id

module _ (t : Telegram) (d : Described t) where
  -- The document, under the handle that the peer was registered with.
  unfoldable pub described : ℕ → t.Peer → PeerDto
  described native_handle peer = record {
    native_handle = native_handle;
    id = or_zero (d.bot_api_dialog_id peer);
    kind = kind_name (d.shape peer);
    username = d.username peer;
    name = d.name peer;
    usernames = d.usernames peer;
    is_megagroup = megagroup_of (d.shape peer);
    has_photo = d.has_photo peer;
    permissions = shape_permissions (d.shape peer);
  }

  unfoldable pub peer_dto : t.Peer → Exec (KnownPeers t) PeerDto
  peer_dto peer = do native_handle ← register_peer t peer; pure (described native_handle peer)

  -- One turn of the loop, in front of the others.
  unfoldable pub list_found :
      Option t.Peer → Exec (KnownPeers t) (List PeerDto) → Exec (KnownPeers t) (List PeerDto)
  list_found none others = others
  list_found (some peer) others = do row ← peer_dto peer; rows ← others; pure (row ∷ rows)

  module _ {ℓ} {A : Type ℓ} (found : (A → Option t.Peer)) where
    -- The documents of the peers that are found, in order; an entry without one is skipped.
    unfoldable pub project : List A → Exec (KnownPeers t) (List PeerDto)
    project [] = pure []
    project (entry ∷ entries) = list_found (found entry) (project entries)
