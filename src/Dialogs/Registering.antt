-- ===== src/Dialogs/Registering.antt =====
-- The document of a dialog under the handles of its peers, and their registration.
use kotlogram.Base.{
  ℕ, ◌+◌, ◌^◌, ◌<◌, ◌≡◌, refl, false, List, [], ◌∷◌, ◌++◌, length, Option, none, some,
}
use kotlogram.Error.{ok}
use kotlogram.Client.{Telegram, KnownPeers, register_peer}
use kotlogram.Client.Peers.{register_all, next_peer_handle-register_peer}
use kotlogram.Client.Documents.{Described, PeerDto, described}
use kotlogram.Client.Listed.{peer_dto-registers, sound_after}
use kotlogram.Dialogs.{}
use kotlogram.Dialogs.Documents.{
  Messages, MessageDto, Dialog, DialogDto, message_peer, message_dto, last_message_dto, dialog_row,
  dialog_dto,
}
use kotlogram.Dialogs.Listing.{}

module _ (t : Telegram) (d : Described t) (ms : Messages t) where
  abbrev peer_list : Option t.Peer → List t.Peer
  peer_list none = []
  peer_list (some peer) = peer ∷ []

  abbrev message_peers : Option ms.Message → List t.Peer
  message_peers none = []
  message_peers (some m) = peer_list (ms.peer m)

  -- The peers that a dialog registers: its own and that of its last message.
  abbrev pub peers_of : Dialog t d ms → List t.Peer
  peers_of x = x.peer ∷ message_peers x.last_message

  abbrev peer_document : ℕ → Option t.Peer → Option PeerDto
  peer_document handle none = none
  peer_document handle (some peer) = some (described t d handle peer)

  abbrev message_document : ℕ → Option ms.Message → Option (MessageDto t d ms)
  message_document handle none = none
  message_document handle (some m) =
      some (record { fields = ms.fields m; peer = peer_document handle (ms.peer m) })

  -- The document of a dialog whose peers have handles from the first on.
  abbrev pub document : ℕ → Dialog t d ms → DialogDto t d ms
  document first x =
      dialog_row t d ms x.raw (described t d first x.peer)
        (message_document (first + 1) x.last_message)

  abbrev pub documents : ℕ → List (Dialog t d ms) → List (DialogDto t d ms)
  documents first [] = []
  documents first (x ∷ xs) = document first x ∷ documents (first + length (peers_of x)) xs

  abbrev pub registered : List (Dialog t d ms) → List t.Peer
  registered [] = []
  registered (x ∷ xs) = peers_of x ++ registered xs

  message_peer-registers :
      (k : KnownPeers t) (peer : Option t.Peer)
      → k.peers.is_poisoned ≡ false
      → message_peer t d ms peer k
        ≡ (ok (peer_document k.next_peer_handle peer), register_all t k (peer_list peer))
  unfolding message_peer
  message_peer-registers k none sound = refl
  message_peer-registers k (some peer) sound = rw (peer_dto-registers t d k peer sound)

  last_message_dto-registers :
      (k : KnownPeers t) (m : Option ms.Message)
      → k.peers.is_poisoned ≡ false
      → last_message_dto t d ms m k
        ≡ (ok (message_document k.next_peer_handle m), register_all t k (message_peers m))
  unfolding last_message_dto message_dto
  last_message_dto-registers k none sound = refl
  last_message_dto-registers k (some m) sound = rw (message_peer-registers k (ms.peer m) sound)

  pub dialog_dto-registers :
      (k : KnownPeers t) (x : Dialog t d ms)
      → k.peers.is_poisoned ≡ false
      → k.next_peer_handle + 1 < 2 ^ 64
      → dialog_dto t d ms x k ≡ (ok (document k.next_peer_handle x), register_all t k (peers_of x))
  unfolding dialog_dto
  dialog_dto-registers k x sound room =
      let next = next_peer_handle-register_peer t k x.peer room in
      rw (
        peer_dto-registers t d k x.peer sound,
        last_message_dto-registers (register_peer t x.peer k).1 x.last_message
            (sound_after t d k x.peer sound),
        next,
      )
