-- ===== src/Folders/ReadBack.antt =====
-- A folder that was created is read back as it was asked for.
use kotlogram.Base.{◌+◌, ◌^◌, ◌<◌, ◌≡◌, false, List, length, arith}
use kotlogram.Base.Int.{ℤ}
use kotlogram.Error.{Result, ok}
use kotlogram.Exec.{◌>>=◌}
use kotlogram.Client.{Telegram, KnownPeers}
use kotlogram.Client.Layer.{InputPeer}
use kotlogram.Client.Peers.{register_all}
use kotlogram.Client.Documents.{Described}
use kotlogram.Client.Listed.{
  found_all, numbered, project-numbered, register_all_sound, next_peer_handle-register_all,
}
use kotlogram.Folders.{
  DialogFilterSpec, DialogFolderDto, title_text, peers_input, dialog_filter_input, reachable,
  peers_dto, dialog_folder_dto,
}

module _ (t : Telegram) (d : Described t) (input_of : (t.PeerRef → InputPeer))
    (resolve : (InputPeer → Result t.Peer)) (k : KnownPeers t) where
  -- The folder that a specification asks for, where its peers are these and the first handle is that.
  abbrev pub folder :
      ℤ → DialogFilterSpec → (pinned included excluded : List t.Peer) → DialogFolderDto
  folder id spec pinned included excluded = record {
    id = id;
    kind = "filter";
    title = spec.title;
    contacts = spec.contacts;
    non_contacts = spec.non_contacts;
    groups = spec.groups;
    broadcasts = spec.broadcasts;
    bots = spec.bots;
    exclude_muted = spec.exclude_muted;
    exclude_read = spec.exclude_read;
    exclude_archived = spec.exclude_archived;
    has_my_invites = false;
    pinned_peers = numbered t d k.next_peer_handle pinned;
    include_peers = numbered t d (k.next_peer_handle + length pinned) included;
    exclude_peers = numbered t d (k.next_peer_handle + length pinned + length included) excluded;
  }

  -- Where the lock is not poisoned, the counter has room and the peers of a specification resolve to
  -- input peers: creating the filter and reading it answers the folder that was asked for, with its id,
  -- title and flags, and each of its three lists holds, in order and under fresh handles, the peers
  -- that can still be resolved.
  pub dialog_folder_dto-dialog_filter_input :
      (id : ℤ) (spec : DialogFilterSpec) (pinned included excluded : List InputPeer)
      → k.peers.is_poisoned ≡ false
      → peers_input t input_of spec.pinned_peers k ≡ (ok pinned, k)
      → peers_input t input_of spec.include_peers k ≡ (ok included, k)
      → peers_input t input_of spec.exclude_peers k ≡ (ok excluded, k)
      → k.next_peer_handle
          + length (found_all (reachable t d resolve) pinned)
          + length (found_all (reachable t d resolve) included)
          + length (found_all (reachable t d resolve) excluded)
        < 2 ^ 64
      → ((dialog_filter_input t input_of id spec >>= dialog_folder_dto t d resolve) k).0
        ≡ ok (
            folder id spec
              (found_all (reachable t d resolve) pinned)
              (found_all (reachable t d resolve) included)
              (found_all (reachable t d resolve) excluded))
  unfolding dialog_filter_input dialog_folder_dto peers_dto title_text
  dialog_folder_dto-dialog_filter_input id spec pinned included excluded sound first second third
        room =
      let found = found_all (reachable t d resolve) in
      let k1 = register_all t k (found pinned) in
      let k2 = register_all t k1 (found included) in
      let sound1 = register_all_sound t d k (found pinned) sound in
      let sound2 = register_all_sound t d k1 (found included) sound1 in
      let next1 = next_peer_handle-register_all t d k (found pinned) (omega arith) in
      let next2 = next_peer_handle-register_all t d k1 (found included) (omega (arith, next1)) in
      rw (
        first,
        second,
        third,
        project-numbered t d (reachable t d resolve) k pinned sound (omega arith),
        project-numbered t d (reachable t d resolve) k1 included sound1 (omega (arith, next1)),
        project-numbered t d (reachable t d resolve) k2 excluded sound2
            (omega (arith, next1, next2)),
        next2,
        next1,
      )
