-- ===== src/Chatlists/Layer.antt =====
-- The layer's answers on shared folders, as the schema of kotlogramme-kotlin/src/main/resources/raw declares
-- them, without the fields that nothing here reads.
use kotlogram.Base.{ℕ, String, Bool, List, Option}
use kotlogram.Base.Int.{ℤ}
use kotlogram.Folders.Layer.{TextWithEntities}
use kotlogram.Client.{Telegram}
use kotlogram.Chatlists.Objects.{Objects}

module _ (t : Telegram) (o : Objects t) where
  open o use {LayerPeer, RawUser, RawChat}

  -- A URL is its bytes.
  pub record ExportedChatlistInvite : Type 0 where
    pub title : String
    pub url : List ℕ
    pub peers : List LayerPeer

  pub record ExportedInvites : Type 0 where
    pub invites : List ExportedChatlistInvite
    pub chats : List RawChat
    pub users : List RawUser

  pub record UnjoinedInvite : Type 0 where
    pub title_noanimate : Bool
    pub title : TextWithEntities
    pub emoticon : Option String
    pub peers : List LayerPeer
    pub chats : List RawChat
    pub users : List RawUser

  pub record ChatlistInviteAlready : Type 0 where
    pub filter_id : ℤ
    pub missing_peers : List LayerPeer
    pub already_peers : List LayerPeer
    pub chats : List RawChat
    pub users : List RawUser

  pub data ChatlistInvite : Type 0 where
    invite : UnjoinedInvite → ChatlistInvite
    already : ChatlistInviteAlready → ChatlistInvite

  pub record ChatlistUpdates : Type 0 where
    pub missing_peers : List LayerPeer
    pub chats : List RawChat
    pub users : List RawUser

  -- The bundles with chats, and the other constructors of `Updates`.
  pub data Updates : Type 0 where
    combined updates : (chats : List RawChat) → Updates
    other : Updates
