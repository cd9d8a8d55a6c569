-- ===== src/Chatlists/Handlers.antt =====
-- The operations of native/src/ops/chatlists.rs. `invoke` is what Telegram answers to the request that an
-- operation builds, whose one chatlist form is the id of its filter; `input_of` makes the layer's input peer
-- of a reference.
use kotlogram.Base.{ℕ, String, List, Option, none, some}
use kotlogram.Base.Int.{ℤ}
use kotlogram.Error.{Result}
use kotlogram.Exec.{Exec, pure, lift, ◌>>=◌}
use kotlogram.Client.{Telegram, KnownPeers, PeerTarget}
use kotlogram.Client.Layer.{InputPeer}
use kotlogram.Client.Documents.{Described}
use kotlogram.Folders.{peers_input}
use kotlogram.Chatlists.Objects.{Objects}
use kotlogram.Chatlists.Layer.{
  ExportedChatlistInvite, ExportedInvites, ChatlistInvite, ChatlistUpdates, Updates,
}
use kotlogram.Chatlists.Documents.{
  ChatlistPeerDto, ExportedInviteDto, ExportedInvitesDto, ChatlistInviteDto, ChatlistUpdatesDto,
  ChatlistUpdatesAckDto, exported_invite_dto, exported_invites_dto, chatlist_invite_dto,
  chatlist_updates_dto, updates_ack_dto, leave_suggestions_dto,
}

-- InputChatlist::DialogFilter
pub record InputChatlist : Type 0 where
  pub filter_id : ℤ

unfoldable pub input_chatlist : ℤ → InputChatlist
input_chatlist filter_id = record { filter_id = filter_id }

pub record EditInvitePayload : Type 0 where
  pub filter_id : ℤ
  pub slug : List ℕ
  pub title : Option String
  pub peers : Option (List PeerTarget)

module _ (t : Telegram) (d : Described t) (o : Objects t) (input_of : (t.PeerRef → InputPeer)) where
  -- data.peers.map(peers_input).transpose()
  unfoldable pub optional_peers :
      Option (List PeerTarget) → Exec (KnownPeers t) (Option (List InputPeer))
  optional_peers none = pure none
  optional_peers (some targets) = do peers ← peers_input t input_of targets; pure (some peers)

  unfoldable pub export_chatlist_invite :
      (InputChatlist → String → List InputPeer → Result (ExportedChatlistInvite t o))
      → ℤ
      → String
      → List PeerTarget
      → Exec (KnownPeers t) ExportedInviteDto
  export_chatlist_invite invoke filter_id title targets = do
    peers ← peers_input t input_of targets
    invite ← lift (invoke (input_chatlist filter_id) title peers)
    lift (exported_invite_dto t d o invite)

  unfoldable pub edit_exported_invite :
      (InputChatlist
        → List ℕ
        → Option String
        → Option (List InputPeer)
        → Result (ExportedChatlistInvite t o))
      → EditInvitePayload
      → Exec (KnownPeers t) ExportedInviteDto
  edit_exported_invite invoke payload = do
    peers ← optional_peers payload.peers
    invite ← lift (invoke (input_chatlist payload.filter_id) payload.slug payload.title peers)
    lift (exported_invite_dto t d o invite)

  unfoldable pub get_exported_invites :
      (InputChatlist → Result (ExportedInvites t o)) → ℤ → Exec (KnownPeers t) ExportedInvitesDto
  get_exported_invites invoke filter_id = do
    invites ← lift (invoke (input_chatlist filter_id))
    exported_invites_dto t d o invites

  unfoldable pub check_chatlist_invite :
      (List ℕ → Result (ChatlistInvite t o)) → List ℕ → Exec (KnownPeers t) ChatlistInviteDto
  check_chatlist_invite invoke slug = do
    result ← lift (invoke slug)
    chatlist_invite_dto t d o result

  unfoldable pub join_chatlist_invite :
      (List ℕ → List InputPeer → Result (Updates t o))
      → List ℕ
      → List PeerTarget
      → Exec (KnownPeers t) ChatlistUpdatesAckDto
  join_chatlist_invite invoke slug targets = do
    peers ← peers_input t input_of targets
    bundle ← lift (invoke slug peers)
    updates_ack_dto t d o bundle

  unfoldable pub get_chatlist_updates :
      (InputChatlist → Result (ChatlistUpdates t o)) → ℤ → Exec (KnownPeers t) ChatlistUpdatesDto
  get_chatlist_updates invoke filter_id = do
    answer ← lift (invoke (input_chatlist filter_id))
    chatlist_updates_dto t d o answer

  -- The body of the two handlers below, which differ in the request only.
  unfoldable pub act_on_chatlist :
      (InputChatlist → List InputPeer → Result (Updates t o))
      → ℤ
      → List PeerTarget
      → Exec (KnownPeers t) ChatlistUpdatesAckDto
  act_on_chatlist invoke filter_id targets = do
    peers ← peers_input t input_of targets
    bundle ← lift (invoke (input_chatlist filter_id) peers)
    updates_ack_dto t d o bundle

  unfoldable pub join_chatlist_updates :
      (InputChatlist → List InputPeer → Result (Updates t o))
      → ℤ
      → List PeerTarget
      → Exec (KnownPeers t) ChatlistUpdatesAckDto
  join_chatlist_updates invoke filter_id targets = act_on_chatlist invoke filter_id targets

  unfoldable pub leave_chatlist :
      (InputChatlist → List InputPeer → Result (Updates t o))
      → ℤ
      → List PeerTarget
      → Exec (KnownPeers t) ChatlistUpdatesAckDto
  leave_chatlist invoke filter_id targets = act_on_chatlist invoke filter_id targets

  unfoldable pub get_leave_chatlist_suggestions :
      (InputChatlist → Result (List o.LayerPeer)) → ℤ → Exec (KnownPeers t) (List ChatlistPeerDto)
  get_leave_chatlist_suggestions invoke filter_id = do
    suggestions ← lift (invoke (input_chatlist filter_id))
    pure (leave_suggestions_dto t d o suggestions)
