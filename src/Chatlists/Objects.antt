-- ===== src/Chatlists/Objects.antt =====
-- The objects that an answer carries beside its bare peers, and how grammers makes peers of them.
use kotlogram.Base.{List, [], ◌∷◌, Option, none, some, if◌then◌else◌}
use kotlogram.Base.Int.{ℤ, eq_ℤ}
use kotlogram.Chats.{PeerKind}
use kotlogram.Users.Documents.{ClientUser}
use kotlogram.Client.{Telegram}

-- A layer's `Peer` and its id, and the layer's users and chats with their ids.
pub record Objects (t : Telegram) : Type 1 where
  pub LayerPeer : Type 0
  pub RawUser : Type 0
  pub RawChat : Type 0
  pub kind : LayerPeer → PeerKind
  pub bare_id : LayerPeer → Option ℤ
  pub bot_api_dialog_id : LayerPeer → Option ℤ
  pub user_id : RawUser → ℤ
  pub chat_id : RawChat → ℤ
  pub client_user : RawUser → ClientUser
  pub user_peer : RawUser → t.Peer
  pub chat_peer : RawChat → t.Peer

-- objects.iter().find(|object| object.id() == bare)
unfoldable pub find_id {ℓ} : {A : Type ℓ} → (A → ℤ) → ℤ → List A → Option A
find_id id_of bare [] = none
find_id id_of bare (object ∷ objects) =
    let later = find_id id_of bare objects in
    if eq_ℤ (id_of object) bare then some object else later
