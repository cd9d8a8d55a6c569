-- ===== src/Folders/Layer.antt =====
-- The layer's dialog filters, as the schema of kotlogramme-kotlin/src/main/resources/raw declares them.
use kotlogram.Base.{String, Bool, List, Option}
use kotlogram.Base.Int.{ℤ}
use kotlogram.Client.Layer.{InputPeer}
use kotlogram.Format.Layer.{MessageEntity}

pub record TextWithEntities : Type 0 where
  pub text : String
  pub entities : List MessageEntity

pub record DialogFilter : Type 0 where
  pub contacts : Bool
  pub non_contacts : Bool
  pub groups : Bool
  pub broadcasts : Bool
  pub bots : Bool
  pub exclude_muted : Bool
  pub exclude_read : Bool
  pub exclude_archived : Bool
  pub title_noanimate : Bool
  pub id : ℤ
  pub title : TextWithEntities
  pub emoticon : Option String
  pub color : Option ℤ
  pub pinned_peers : List InputPeer
  pub include_peers : List InputPeer
  pub exclude_peers : List InputPeer

pub record DialogFilterChatlist : Type 0 where
  pub has_my_invites : Bool
  pub title_noanimate : Bool
  pub id : ℤ
  pub title : TextWithEntities
  pub emoticon : Option String
  pub color : Option ℤ
  pub pinned_peers : List InputPeer
  pub include_peers : List InputPeer

-- tl::enums::DialogFilter
pub data AnyDialogFilter : Type 0 where
  filter : DialogFilter → AnyDialogFilter
  chatlist : DialogFilterChatlist → AnyDialogFilter
  default : AnyDialogFilter

pub record DialogFilters : Type 0 where
  pub tags_enabled : Bool
  pub filters : List AnyDialogFilter
