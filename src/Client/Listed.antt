-- ===== src/Client/Listed.antt =====
-- Every peer of a listing is registered: the handles of its documents resolve to its peers.
use kotlogram.Base.{
  ℕ, ◌+◌, ◌^◌, ◌<◌, ◌≡◌, refl, subst, false, List, [], ◌∷◌, ◌++◌, length, Option, none, some,
  Option-cases, inl, inr, arith,
}
use kotlogram.Error.{ok}
use kotlogram.Client.{
  Telegram, KnownPeers, PeerTarget, next_peer, register_peer, resolve_peer_projected,
}
use kotlogram.Client.Peers.{
  register_all, Names, register_peer-Names, register_all-Names, next_peer_handle-register_peer,
  Names-resolves,
}
use kotlogram.Client.Documents.{Described, PeerDto, described, peer_dto, list_found, project}

abbrev with_found {ℓ} : {B : Type ℓ} → Option B → List B → List B
with_found none rest = rest
with_found (some b) rest = b ∷ rest

-- The peers that are found.
abbrev pub found_all {ℓ κ} : {A : Type ℓ} {B : Type κ} → (A → Option B) → List A → List B
found_all found [] = []
found_all found (a ∷ rest) = with_found (found a) (found_all found rest)

abbrev pub by_handle : ℕ → PeerTarget
by_handle handle = record { peer_handle = some handle; username = none }

module _ (t : Telegram) (d : Described t) where
  -- The documents of the peers, with handles from the first on.
  abbrev pub numbered : ℕ → List t.Peer → List PeerDto
  numbered first [] = []
  numbered first (peer ∷ peers) = described t d first peer ∷ numbered (first + 1) peers

  -- The handles from the first on resolve to the peers.
  abbrev pub Resolve : KnownPeers t → ℕ → List t.Peer → Type 0
  Resolve k first [] = Unit
  Resolve k first (peer ∷ peers) =
      ((resolve_peer_projected t (by_handle first) k).0 ≡ ok peer) × Resolve k (first + 1) peers

  pub peer_dto-registers :
      (k : KnownPeers t) (peer : t.Peer)
      → k.peers.is_poisoned ≡ false
      → peer_dto t d peer k
        ≡ (ok (described t d k.next_peer_handle peer), (register_peer t peer k).1)
  unfolding peer_dto register_peer next_peer
  peer_dto-registers k peer sound = rw sound

  -- Registering a peer keeps the lock sound.
  pub sound_after :
      (k : KnownPeers t) (peer : t.Peer)
      → k.peers.is_poisoned ≡ false
      → (register_peer t peer k).1.peers.is_poisoned ≡ false
  unfolding register_peer next_peer
  sound_after k peer sound = ground arith

  module _ {ℓ} {A : Type ℓ} (found : (A → Option t.Peer)) where
    pub project-numbered :
        (k : KnownPeers t) (entries : List A)
        → k.peers.is_poisoned ≡ false
        → k.next_peer_handle + length (found_all found entries) < 2 ^ 64
        → project t d found entries k ≡ (
          ok (numbered k.next_peer_handle (found_all found entries)),
          register_all t k (found_all found entries),
        )
    unfolding project list_found
    project-numbered k [] sound room = refl
    project-numbered k (entry ∷ entries) sound room = elim (Option-cases (found entry)) [
      | inl missing ↦ rw missing (project-numbered k entries sound (rw missing at room))
      | inr (peer, here) ↦
          let room = rw here at room in
          let next = next_peer_handle-register_peer t k peer (omega arith) in
          let rest =
            project-numbered (register_peer t peer k).1 entries (sound_after k peer sound)
              (omega (arith, next)) in
          rw (here, peer_dto-registers k peer sound, rest, next)
    ]

  resolves :
      (k : KnownPeers t) (handle : ℕ) (peer : t.Peer)
      → Names t k handle peer
      → (resolve_peer_projected t (by_handle handle) k).0 ≡ ok peer
  unfolding resolve_peer_projected
  resolves k handle peer named = Names-resolves t k handle peer named

  pub register_all-Resolve :
      (k : KnownPeers t) (peers : List t.Peer)
      → k.peers.is_poisoned ≡ false
      → k.next_peer_handle + length peers < 2 ^ 64
      → Resolve (register_all t k peers) k.next_peer_handle peers
  register_all-Resolve k [] sound room = tt
  register_all-Resolve k (peer ∷ peers) sound room =
      let after = (register_peer t peer k).1 in
      let next = next_peer_handle-register_peer t k peer (omega arith) in
      (
        resolves (register_all t after peers) k.next_peer_handle peer (
            register_all-Names t after k.next_peer_handle peer peers (omega (arith, next))
              (register_peer-Names t k peer sound (omega arith))),
        subst (λ first. Resolve (register_all t after peers) first peers) next
            (register_all-Resolve after peers (sound_after k peer sound) (omega (arith, next))),
      )

  -- What registering several peers leaves.
  pub register_all_sound :
      (k : KnownPeers t) (peers : List t.Peer)
      → k.peers.is_poisoned ≡ false
      → (register_all t k peers).peers.is_poisoned ≡ false
  register_all_sound k [] sound = sound
  register_all_sound k (peer ∷ peers) sound =
      register_all_sound (register_peer t peer k).1 peers (sound_after k peer sound)

  pub next_peer_handle-register_all :
      (k : KnownPeers t) (peers : List t.Peer)
      → k.next_peer_handle + length peers < 2 ^ 64
      → (register_all t k peers).next_peer_handle ≡ k.next_peer_handle + length peers
  next_peer_handle-register_all k [] room = omega arith
  next_peer_handle-register_all k (peer ∷ peers) room =
      let next = next_peer_handle-register_peer t k peer (omega arith) in
      let rest =
        next_peer_handle-register_all (register_peer t peer k).1 peers (omega (arith, next)) in
      omega (arith, next, rest)

  pub register_all-append :
      (k : KnownPeers t) (left right : List t.Peer)
      → register_all t k (left ++ right) ≡ register_all t (register_all t k left) right
  register_all-append k [] right = refl
  register_all-append k (peer ∷ left) right =
      register_all-append (register_peer t peer k).1 left right
