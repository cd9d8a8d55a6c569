-- ===== src/Client.antt =====
-- The registries of native/src/client.rs: the clients that the JVM holds handles of, and the peers of a
-- client. What building a client comes to, and what grammers knows of a peer, are arguments.
pub mod Peers
pub mod Layer
pub mod Documents
pub mod Listed
pub mod Numbers
use kotlogram.Base.{ℕ, ◌+◌, ◌%◌, ◌^◌, Bool, List, [], ◌∷◌, ◌==◌, Option, none, some, if◌then◌else◌}
use kotlogram.Base.Map
use kotlogram.Base.Map.{Map}
use kotlogram.Error.{
  Result, ok, err, ok_or, map_ok, unknown_client_handle, unknown_peer_handle, peer_not_usable,
  peer_or_username_required, username_not_found,
}
use kotlogram.Exec.{Exec, Mutex, locked, write, pure, reads, lift, modify, ◌>>=◌, ◌>>◌}

module _ (Client : Type 0) where
  abbrev pub Registry : Type 0
  Registry = Mutex (Map Client)

  unfoldable pub get_client : ℕ → Exec Registry Client
  get_client handle = do
    clients ← reads (λ (m : Registry). locked m)
    lift (ok_or (Map.get handle clients) (unknown_client_handle handle))

  -- `built` is the client and the address that is its handle.
  unfoldable pub create_client : Result (ℕ × Client) → Exec Registry ℕ
  create_client built = do
    client ← lift built
    clients ← reads (λ (m : Registry). locked m)
    modify (λ (m : Registry). write m (Map.insert client.0 client.1 clients))
    pure client.0

  -- The client that is stopped, if the handle names one.
  unfoldable pub close_client : ℕ → Exec Registry (Option Client)
  close_client handle = do
    clients ← reads (λ (m : Registry). locked m)
    modify (λ (m : Registry). write m (Map.remove handle clients))
    pure (Map.get handle clients)

-- str::trim_start_matches('@')
unfoldable pub trim_at : List ℕ → List ℕ
trim_at [] = []
trim_at (c ∷ name) = let rest = trim_at name in if c == b'@' then rest else c ∷ name

-- A username is the bytes of its text.
pub record PeerTarget : Type 0 where
  pub peer_handle : Option ℕ
  pub username : Option (List ℕ)

-- grammers' peers: whether one is the account itself, the reference that calls take, the account's own,
-- and the search of a username.
pub record Telegram : Type 1 where
  pub Peer : Type 0
  pub PeerRef : Type 0
  pub is_self : Peer → Bool
  pub to_ref : Peer → Result (Option PeerRef)
  pub self_peer_ref : PeerRef
  pub resolve_username : List ℕ → Result (Option Peer)

module _ (t : Telegram) where
  open t use {Peer, PeerRef, is_self, to_ref, self_peer_ref, resolve_username}

  pub record KnownPeers : Type 0 where
    pub peers : Mutex (Map Peer)
    pub next_peer_handle : ℕ

  unfoldable pub next_peer : Exec KnownPeers ℕ
  next_peer k =
      (ok k.next_peer_handle, record k { next_peer_handle = (k.next_peer_handle + 1) % 2 ^ 64 })

  unfoldable pub register_peer : Peer → Exec KnownPeers ℕ
  register_peer peer = do
    native_handle ← next_peer
    peers ← reads (λ (k : KnownPeers). locked k.peers)
    modify (λ k. record k { peers = write k.peers (Map.insert native_handle peer peers) })
    pure native_handle

  unfoldable pub resolve_handle : ℕ → Exec KnownPeers Peer
  resolve_handle handle = do
    peers ← reads (λ (k : KnownPeers). locked k.peers)
    lift (ok_or (Map.get handle peers) (unknown_peer_handle handle))

  unfoldable pub search_username : Option (List ℕ) → Exec KnownPeers Peer
  search_username target = do
    username ← lift (ok_or target peer_or_username_required)
    found ← lift (resolve_username (trim_at username))
    lift (ok_or found (username_not_found (trim_at username)))

  unfoldable pub resolve_peer_projected : PeerTarget → Exec KnownPeers Peer
  resolve_peer_projected target = elim target.peer_handle [
    | some handle ↦ resolve_handle handle
    | none ↦ search_username target.username
  ]

  -- The reference that a resolved peer is addressed by.
  unfoldable pub address : Peer → Exec KnownPeers PeerRef
  address peer =
      if is_self peer
      then pure self_peer_ref
      else (do reference ← lift (to_ref peer); lift (ok_or reference peer_not_usable))

  unfoldable pub resolve_peer : PeerTarget → Exec KnownPeers PeerRef
  resolve_peer target = do peer ← resolve_peer_projected target; address peer
