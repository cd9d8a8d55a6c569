-- ===== src/Dialogs/Documents.antt =====
-- The document of a dialog (native/src/dto/dialog.rs), which registers the peer of the dialog and the peer of
-- its last message. A message is what the listing calls of it; the fields of its document that are only
-- read off the message are one value.
use kotlogram.Base.{String, Bool, true, false, Option, none, some}
use kotlogram.Base.Int.{ℤ, pos}
use kotlogram.Error.{ok, err}
use kotlogram.Exec.{Exec, pure, ◌>>=◌}
use kotlogram.Client.{Telegram, KnownPeers}
use kotlogram.Client.Documents.{Described, PeerDto, peer_dto}
use kotlogram.Dialogs.Layer.{DraftMessage, RawDialog}

-- grammers' messages: the id, the date in epoch milliseconds, the peer if it is known, and the rest of a
-- message's document.
pub record Messages (t : Telegram) : Type 1 where
  pub Message : Type 0
  pub Fields : Type 0
  pub id : Message → ℤ
  pub date : Message → ℤ
  pub peer : Message → Option t.Peer
  pub fields : Message → Fields

-- The tuple of `dialog_dto`.
pub record DialogState : Type 0 where
  pub pinned : Bool
  pub top_message : ℤ
  pub unread_count : Option ℤ
  pub unread_mentions_count : Option ℤ
  pub draft_text : Option String
  pub folder_id : Option ℤ

unfoldable pub draft_text_of : Option DraftMessage → Option String
draft_text_of none = none
draft_text_of (some (DraftMessage.message text)) = some text
draft_text_of (some DraftMessage.empty) = none

unfoldable pub dialog_state : RawDialog → DialogState
dialog_state (RawDialog.dialog pinned top unread mentions draft folder_id) = record {
  pinned = pinned;
  top_message = top;
  unread_count = some unread;
  unread_mentions_count = some mentions;
  draft_text = draft_text_of draft;
  folder_id = folder_id;
}
dialog_state (RawDialog.folder pinned top) = record {
  pinned = pinned;
  top_message = top;
  unread_count = none;
  unread_mentions_count = none;
  draft_text = none;
  folder_id = none;
}
dialog_state (RawDialog.community pinned) = record {
  pinned = pinned;
  top_message = pos 0;
  unread_count = none;
  unread_mentions_count = none;
  draft_text = none;
  folder_id = none;
}

unfoldable pub is_folder_row : RawDialog → Bool
is_folder_row (RawDialog.dialog pinned top unread mentions draft folder_id) = false
is_folder_row (RawDialog.folder pinned top) = true
is_folder_row (RawDialog.community pinned) = false

-- result.ok(): what was written before the failure stays written.
abbrev pub attempt {ℓ κ} : {S : Type ℓ} {A : Type κ} → Exec S A → Exec S (Option A)
attempt run s = let (r, s') = run s in (ok (elim r [ ok a ↦ some a | err e ↦ none ]), s')

module _ (t : Telegram) (d : Described t) (ms : Messages t) where
  open ms use {Message, Fields}

  pub record MessageDto : Type 0 where
    pub fields : Fields
    pub peer : Option PeerDto

  pub record DialogDto : Type 0 where
    pub peer : PeerDto
    pub last_message : Option MessageDto
    pub pinned : Bool
    pub top_message : ℤ
    pub unread_count : Option ℤ
    pub unread_mentions_count : Option ℤ
    pub draft_text : Option String
    pub folder_id : Option ℤ
    pub is_folder : Bool

  pub record Dialog : Type 0 where
    pub peer : t.Peer
    pub last_message : Option Message
    pub raw : RawDialog

  -- message.peer().and_then(|peer| peer_dto(native, peer).ok())
  unfoldable pub message_peer : Option t.Peer → Exec (KnownPeers t) (Option PeerDto)
  message_peer none = pure none
  message_peer (some peer) = attempt (peer_dto t d peer)

  unfoldable pub message_dto : Message → Exec (KnownPeers t) MessageDto
  message_dto message = do
    peer ← message_peer (ms.peer message)
    pure (record { fields = ms.fields message; peer = peer })

  unfoldable pub last_message_dto : Option Message → Exec (KnownPeers t) (Option MessageDto)
  last_message_dto none = pure none
  last_message_dto (some message) = do dto ← message_dto message; pure (some dto)

  -- The document under the documents of its peer and of its last message.
  unfoldable pub dialog_row : RawDialog → PeerDto → Option MessageDto → DialogDto
  dialog_row raw peer last_message =
      let state = dialog_state raw in
      record {
        peer = peer;
        last_message = last_message;
        pinned = state.pinned;
        top_message = state.top_message;
        unread_count = state.unread_count;
        unread_mentions_count = state.unread_mentions_count;
        draft_text = state.draft_text;
        folder_id = state.folder_id;
        is_folder = is_folder_row raw;
      }

  unfoldable pub dialog_dto : Dialog → Exec (KnownPeers t) DialogDto
  dialog_dto dialog = do
    peer ← peer_dto t d dialog.peer
    last_message ← last_message_dto dialog.last_message
    pure (dialog_row dialog.raw peer last_message)
