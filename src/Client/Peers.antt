-- ===== src/Client/Peers.antt =====
-- A peer's handle resolves to that peer for the life of the client.
use kotlogram.Base.{ℕ, ◌+◌, ◌^◌, ◌<◌, ◌≡◌, false, List, [], ◌∷◌, length, some, arith}
use kotlogram.Base.Map
use kotlogram.Base.Map.{get-insert}
use kotlogram.Error.{ok}
use kotlogram.Client.{Telegram, KnownPeers, next_peer, register_peer, resolve_handle}

module _ (t : Telegram) where
  open t use {Peer, PeerRef, is_self, to_ref, self_peer_ref}

  abbrev pub register_all : KnownPeers t → List Peer → KnownPeers t
  register_all k [] = k
  register_all k (peer ∷ peers) = register_all (register_peer t peer k).1 peers

  -- The handle names the peer, and later handles are above it.
  pub record Names (k : KnownPeers t) (handle : ℕ) (peer : Peer) : Type 0 where
    pub usable : k.peers.is_poisoned ≡ false
    pub old : handle < k.next_peer_handle
    pub found : Map.get handle k.peers.value ≡ some peer

  pub register_peer-Names :
      (k : KnownPeers t) (peer : Peer)
      → k.peers.is_poisoned ≡ false
      → k.next_peer_handle + 1 < 2 ^ 64
      → Names (register_peer t peer k).1 k.next_peer_handle peer
  unfolding register_peer next_peer
  register_peer-Names k peer sound room = record {
    usable = ground arith;
    old = ground arith;
    found = ground (arith, get-insert k.next_peer_handle k.next_peer_handle peer k.peers.value);
  }

  later-Names :
      (k : KnownPeers t) (handle : ℕ) (peer other : Peer)
      → k.next_peer_handle + 1 < 2 ^ 64
      → Names k handle peer
      → Names (register_peer t other k).1 handle peer
  unfolding register_peer next_peer
  later-Names k handle peer other room v =
      let sound = v.usable in
      let old = v.old in
      let found = v.found in
      record {
        usable = ground arith;
        old = ground arith;
        found = ground (arith, get-insert k.next_peer_handle handle other k.peers.value);
      }

  pub next_peer_handle-register_peer :
      (k : KnownPeers t) (peer : Peer)
      → k.next_peer_handle + 1 < 2 ^ 64
      → (register_peer t peer k).1.next_peer_handle ≡ k.next_peer_handle + 1
  unfolding register_peer next_peer
  next_peer_handle-register_peer k peer room = ground arith

  pub register_all-Names :
      (k : KnownPeers t) (handle : ℕ) (peer : Peer) (others : List Peer)
      → k.next_peer_handle + length others < 2 ^ 64
      → Names k handle peer
      → Names (register_all k others) handle peer
  register_all-Names k handle peer [] room v = v
  register_all-Names k handle peer (other ∷ others) room v =
      let next = next_peer_handle-register_peer k other (omega arith) in
      register_all-Names (register_peer t other k).1 handle peer others (omega (arith, next))
        (later-Names k handle peer other (omega arith) v)

  pub Names-resolves :
      (k : KnownPeers t) (handle : ℕ) (peer : Peer)
      → Names k handle peer
      → (resolve_handle t handle k).0 ≡ ok peer
  unfolding resolve_handle
  Names-resolves k handle peer v = let sound = v.usable in let found = v.found in ground arith
