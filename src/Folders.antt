-- ===== src/Folders.antt =====
-- The dialog filters (folders) of native/src/ops/folders.rs and their documents in
-- native/src/dto/folders.rs. `invoke` is what Telegram answers; how a peer's reference becomes the layer's
-- input peer, and how grammers resolves one, are arguments.
pub mod Layer
pub mod ReadBack
pub mod NamedAgain
mod Examples
use kotlogram.Base.{ℕ, String, Bool, false, List, [], ◌∷◌, Option, none, some}
use kotlogram.Base.Int.{ℤ, pos}
use kotlogram.Error.{Result, ok, err}
use kotlogram.Exec.{Exec, pure, lift, ◌>>=◌}
use kotlogram.Client.{Telegram, KnownPeers, PeerTarget, resolve_peer}
use kotlogram.Client.Layer.{InputPeer}
use kotlogram.Client.Documents.{Described, PeerDto, project}
use kotlogram.Folders.Layer.{
  TextWithEntities, DialogFilter, DialogFilterChatlist, AnyDialogFilter, DialogFilters,
}

pub record DialogFilterSpec : Type 0 where
  pub title : String
  pub contacts : Bool
  pub non_contacts : Bool
  pub groups : Bool
  pub broadcasts : Bool
  pub bots : Bool
  pub exclude_muted : Bool
  pub exclude_read : Bool
  pub exclude_archived : Bool
  pub pinned_peers : List PeerTarget
  pub include_peers : List PeerTarget
  pub exclude_peers : List PeerTarget

pub record DialogFolderDto : Type 0 where
  pub id : ℤ
  pub kind : String
  pub title : String
  pub contacts : Bool
  pub non_contacts : Bool
  pub groups : Bool
  pub broadcasts : Bool
  pub bots : Bool
  pub exclude_muted : Bool
  pub exclude_read : Bool
  pub exclude_archived : Bool
  pub has_my_invites : Bool
  pub pinned_peers : List PeerDto
  pub include_peers : List PeerDto
  pub exclude_peers : List PeerDto

pub record DialogFoldersDto : Type 0 where
  pub tags_enabled : Bool
  pub filters : List DialogFolderDto

unfoldable pub title_text : TextWithEntities → String
title_text title = title.text

module _ (t : Telegram) (input_of : (t.PeerRef → InputPeer)) where
  unfoldable pub peers_input : List PeerTarget → Exec (KnownPeers t) (List InputPeer)
  peers_input [] = pure []
  peers_input (target ∷ targets) = do
    resolved ← resolve_peer t target
    peers ← peers_input targets
    pure (input_of resolved ∷ peers)

  unfoldable pub dialog_filter_input : ℤ → DialogFilterSpec → Exec (KnownPeers t) AnyDialogFilter
  dialog_filter_input id spec = do
    pinned ← peers_input spec.pinned_peers
    included ← peers_input spec.include_peers
    excluded ← peers_input spec.exclude_peers
    pure (
        AnyDialogFilter.filter (record {
          contacts = spec.contacts;
          non_contacts = spec.non_contacts;
          groups = spec.groups;
          broadcasts = spec.broadcasts;
          bots = spec.bots;
          exclude_muted = spec.exclude_muted;
          exclude_read = spec.exclude_read;
          exclude_archived = spec.exclude_archived;
          title_noanimate = false;
          id = id;
          title = record { text = spec.title; entities = [] };
          emoticon = none;
          color = none;
          pinned_peers = pinned;
          include_peers = included;
          exclude_peers = excluded;
        }))

  -- An absent filter is the layer's delete form.
  unfoldable pub requested_filter :
      ℤ → Option DialogFilterSpec → Exec (KnownPeers t) (Option AnyDialogFilter)
  requested_filter id none = pure none
  requested_filter id (some spec) = do built ← dialog_filter_input id spec; pure (some built)

  -- The answer `{"ok": true}` carries nothing.
  unfoldable pub update_dialog_filter :
      (ℤ → Option AnyDialogFilter → Result (Unit {0}))
      → ℤ
      → Option DialogFilterSpec
      → Exec (KnownPeers t) (Unit {0})
  update_dialog_filter invoke id spec = do built ← requested_filter id spec; lift (invoke id built)

module _ (t : Telegram) (d : Described t) (resolve : (InputPeer → Result t.Peer)) where
  -- What the loop of `peers_dto` goes on with: an input peer that names nobody, or that grammers cannot
  -- resolve, is skipped.
  unfoldable pub reachable : InputPeer → Option t.Peer
  reachable InputPeer.empty = none
  reachable input = elim (resolve input) [ ok peer ↦ some peer | err e ↦ none ]

  unfoldable pub peers_dto : List InputPeer → Exec (KnownPeers t) (List PeerDto)
  peers_dto peers = project t d reachable peers

  unfoldable pub dialog_folder_dto : AnyDialogFilter → Exec (KnownPeers t) DialogFolderDto
  dialog_folder_dto (AnyDialogFilter.filter f) = do
    pinned ← peers_dto f.pinned_peers
    included ← peers_dto f.include_peers
    excluded ← peers_dto f.exclude_peers
    pure (record {
      id = f.id;
      kind = "filter";
      title = title_text f.title;
      contacts = f.contacts;
      non_contacts = f.non_contacts;
      groups = f.groups;
      broadcasts = f.broadcasts;
      bots = f.bots;
      exclude_muted = f.exclude_muted;
      exclude_read = f.exclude_read;
      exclude_archived = f.exclude_archived;
      has_my_invites = false;
      pinned_peers = pinned;
      include_peers = included;
      exclude_peers = excluded;
    })
  dialog_folder_dto (AnyDialogFilter.chatlist c) = do
    pinned ← peers_dto c.pinned_peers
    included ← peers_dto c.include_peers
    pure (record {
      id = c.id;
      kind = "chatlist";
      title = title_text c.title;
      contacts = false;
      non_contacts = false;
      groups = false;
      broadcasts = false;
      bots = false;
      exclude_muted = false;
      exclude_read = false;
      exclude_archived = false;
      has_my_invites = c.has_my_invites;
      pinned_peers = pinned;
      include_peers = included;
      exclude_peers = [];
    })
  dialog_folder_dto AnyDialogFilter.default = pure (record {
    id = pos 0;
    kind = "default";
    title = "";
    contacts = false;
    non_contacts = false;
    groups = false;
    broadcasts = false;
    bots = false;
    exclude_muted = false;
    exclude_read = false;
    exclude_archived = false;
    has_my_invites = false;
    pinned_peers = [];
    include_peers = [];
    exclude_peers = [];
  })

  -- The loop over the filters.
  unfoldable pub folder_rows : List AnyDialogFilter → Exec (KnownPeers t) (List DialogFolderDto)
  folder_rows [] = pure []
  folder_rows (f ∷ others) = do
    row ← dialog_folder_dto f
    rows ← folder_rows others
    pure (row ∷ rows)

  unfoldable pub dialog_folders_dto : DialogFilters → Exec (KnownPeers t) DialogFoldersDto
  dialog_folders_dto filters = do
    rows ← folder_rows filters.filters
    pure (record { tags_enabled = filters.tags_enabled; filters = rows })

  unfoldable pub get_dialog_filters : Result DialogFilters → Exec (KnownPeers t) DialogFoldersDto
  get_dialog_filters answer = do filters ← lift answer; dialog_folders_dto filters
