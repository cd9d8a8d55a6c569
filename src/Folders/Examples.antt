-- ===== src/Folders/Examples.antt =====
-- A folder of two peers, of which grammers can still resolve one.
use kotlogram.Base.{
  ℕ, ◌%◌, map, ◌≡◌, refl, true, false, [], ◌∷◌, Option, none, some, ◌==◌, if◌then◌else◌, arith,
}
use kotlogram.Base.Int.{pos}
use kotlogram.Base.Map
use kotlogram.Error.{Result, ok, err, peer_not_usable}
use kotlogram.Exec.{unlocked, ◌>>=◌}
use kotlogram.Client.{KnownPeers, resolve_peer, resolve_peer_projected, resolve_handle, address}
use kotlogram.Client.Layer.{InputPeer}
use kotlogram.Client.Documents.{project}
use kotlogram.Client.Numbers.{numbers, described_numbers}
use kotlogram.Client.Listed.{by_handle}
use kotlogram.Folders.{
  DialogFilterSpec, dialog_filter_input, peers_input, reachable, dialog_folder_dto,
}
use kotlogram.Folders.NamedAgain.{named, addressed, peers_input-project}
use kotlogram.Folders.ReadBack.{folder, dialog_folder_dto-dialog_filter_input}

abbrev as_user : ℕ → InputPeer
as_user peer = InputPeer.user (pos peer) (pos 0)

abbrev private_six : InputPeer → Result ℕ
private_six (InputPeer.user (pos id) hash) = if id == 6 then err peer_not_usable else ok id
private_six other = err peer_not_usable

abbrev two_known : KnownPeers numbers
two_known = record { peers = unlocked ((1, 5) ∷ (2, 6) ∷ []); next_peer_handle = 3 }

abbrev work : DialogFilterSpec
work = record {
  title = "Work";
  contacts = false;
  non_contacts = false;
  groups = true;
  broadcasts = false;
  bots = false;
  exclude_muted = true;
  exclude_read = false;
  exclude_archived = true;
  pinned_peers = by_handle 1 ∷ [];
  include_peers = by_handle 2 ∷ by_handle 1 ∷ [];
  exclude_peers = [];
}

pinned_input :
    peers_input numbers as_user work.pinned_peers two_known ≡ (ok (as_user 5 ∷ []), two_known)
unfolding peers_input resolve_peer resolve_peer_projected resolve_handle address Map.get
pinned_input = refl

included_input :
    peers_input numbers as_user work.include_peers two_known
    ≡ (ok (as_user 6 ∷ as_user 5 ∷ []), two_known)
unfolding peers_input resolve_peer resolve_peer_projected resolve_handle address Map.get
included_input = refl

excluded_input : peers_input numbers as_user work.exclude_peers two_known ≡ (ok [], two_known)
unfolding peers_input
excluded_input = refl

dialog_folder_dto-dialog_filter_input_example :
    ((dialog_filter_input numbers as_user (pos 9) work
        >>= dialog_folder_dto numbers described_numbers private_six)
      two_known).0
    ≡ ok (
        folder numbers described_numbers as_user private_six two_known
          (pos 9)
          work
          (5 ∷ [])
          (5 ∷ [])
          [])
unfolding reachable
dialog_folder_dto-dialog_filter_input_example =
    dialog_folder_dto-dialog_filter_input numbers described_numbers as_user private_six two_known
      (pos 9) work (as_user 5 ∷ []) (as_user 6 ∷ as_user 5 ∷ []) [] refl pinned_input included_input
      excluded_input (omega arith)

abbrev even_entry : ℕ → Option ℕ
even_entry entry = if entry % 2 == 0 then some entry else none

-- Every second entry of the listing names a peer.
peers_input-project_example :
    ((project numbers described_numbers even_entry (4 ∷ 7 ∷ 8 ∷ []) >>= λ rows.
    peers_input numbers as_user (map named rows))
      two_known).0
    ≡ addressed numbers described_numbers as_user (4 ∷ 8 ∷ [])
peers_input-project_example =
    peers_input-project numbers described_numbers as_user even_entry (4 ∷ 7 ∷ 8 ∷ []) two_known refl
      (omega arith)
