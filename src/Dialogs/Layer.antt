-- ===== src/Dialogs/Layer.antt =====
-- The layer's dialogs, as native/src/dto/dialog.rs reads them.
use kotlogram.Base.{String, Bool, Option}
use kotlogram.Base.Int.{ℤ}

pub data DraftMessage : Type 0 where
  message : (text : String) → DraftMessage
  empty : DraftMessage

-- The layer's `Dialog`.
pub data RawDialog : Type 0 where
  dialog :
      (pinned : Bool) (top_message unread_count unread_mentions_count : ℤ)
      (draft : Option DraftMessage) (folder_id : Option ℤ)
      → RawDialog
  folder : (pinned : Bool) (top_message : ℤ) → RawDialog
  community : (pinned : Bool) → RawDialog
