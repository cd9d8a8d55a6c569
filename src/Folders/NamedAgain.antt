-- ===== src/Folders/NamedAgain.antt =====
-- The peers of a listing can be named in the next request.
use kotlogram.Base.{
  ℕ, ◌+◌, ◌^◌, ◌<◌, ◌≡◌, refl, ap, false, Bool-cases, List, [], ◌∷◌, map, length, Option, inl, inr,
  if◌then◌else◌, arith,
}
use kotlogram.Error.{Result, ok, err, ok_or, map_ok, peer_not_usable, Result-cases}
use kotlogram.Exec.{◌>>=◌}
use kotlogram.Client.{
  Telegram, KnownPeers, PeerTarget, resolve_handle, resolve_peer_projected, resolve_peer, address,
}
use kotlogram.Client.Layer.{InputPeer}
use kotlogram.Client.Documents.{Described, PeerDto, described, project}
use kotlogram.Client.Peers.{register_all}
use kotlogram.Client.Listed.{
  found_all, numbered, by_handle, Resolve, project-numbered, register_all-Resolve,
}
use kotlogram.Folders.{peers_input}

-- A document names its peer by its handle.
abbrev pub named : PeerDto → PeerTarget
named dto = by_handle dto.native_handle

module _ (t : Telegram) (d : Described t) (input_of : (t.PeerRef → InputPeer)) where
  -- What a peer is addressed by.
  abbrev usable : Result (Option t.PeerRef) → Result t.PeerRef
  usable (ok reference) = ok_or reference peer_not_usable
  usable (err e) = err e

  abbrev reference_of : t.Peer → Result t.PeerRef
  reference_of peer = if t.is_self peer then ok t.self_peer_ref else usable (t.to_ref peer)

  abbrev cons_ok : Result t.PeerRef → Result (List InputPeer) → Result (List InputPeer)
  cons_ok (ok reference) rest = map_ok (◌∷◌ (input_of reference)) rest
  cons_ok (err e) rest = err e

  -- The input peers of the peers, or the first error.
  abbrev pub addressed : List t.Peer → Result (List InputPeer)
  addressed [] = ok []
  addressed (peer ∷ peers) = cons_ok (reference_of peer) (addressed peers)

  -- Resolving a handle only reads.
  resolve_peer_projected-reads :
      (k : KnownPeers t) (handle : ℕ) (peer : t.Peer)
      → (resolve_peer_projected t (by_handle handle) k).0 ≡ ok peer
      → resolve_peer_projected t (by_handle handle) k ≡ (ok peer, k)
  unfolding resolve_peer_projected resolve_handle
  resolve_peer_projected-reads k handle peer found = ground arith

  resolve_peer-named :
      (k : KnownPeers t) (handle : ℕ) (peer : t.Peer)
      → (resolve_peer_projected t (by_handle handle) k).0 ≡ ok peer
      → resolve_peer t (by_handle handle) k ≡ (reference_of peer, k)
  unfolding resolve_peer address
  resolve_peer-named k handle peer found =
      rw (resolve_peer_projected-reads k handle peer found) (elim (Bool-cases (t.is_self peer)) [
        | inl own ↦ rw own
        | inr other ↦ rw other (elim (Result-cases (t.to_ref peer)) [
          | inl (reference, here) ↦ rw here
          | inr (e, here) ↦ rw here
        ])
      ])

  Resolve-named :
      (k : KnownPeers t) (first : ℕ) (peers : List t.Peer)
      → Resolve t d k first peers
      → peers_input t input_of (map named (numbered t d first peers)) k ≡ (addressed peers, k)
  unfolding peers_input described
  Resolve-named k first [] resolve = refl
  Resolve-named k first (peer ∷ peers) (this, others) =
      rw (resolve_peer-named k first peer this) (elim (Result-cases (reference_of peer)) [
        | inl (reference, here) ↦
            rw (here, Resolve-named k (first + 1) peers others)
              (elim (Result-cases (addressed peers)) [
                | inl (inputs, all) ↦ rw all
                | inr (e, failed) ↦ rw failed
              ])
        | inr (e, here) ↦ rw here
      ])

  -- Where the lock is not poisoned and the 64-bit counter has room: naming the peers of a listing, by the
  -- handles of its documents, in the next request sends exactly the input peers of the peers that the
  -- listing found, in order, or fails with the first one that cannot be addressed.
  pub peers_input-project {ℓ} :
      {A : Type ℓ} (found : (A → Option t.Peer)) (entries : List A) (k : KnownPeers t)
      → k.peers.is_poisoned ≡ false
      → k.next_peer_handle + length (found_all found entries) < 2 ^ 64
      → ((project t d found entries >>= λ rows. peers_input t input_of (map named rows)) k).0
        ≡ addressed (found_all found entries)
  peers_input-project found entries k sound room =
      rw (project-numbered t d found k entries sound room) (
        ap (λ answer. answer.0)
          (Resolve-named (register_all t k (found_all found entries)) k.next_peer_handle
            (found_all found entries)
            (register_all-Resolve t d k (found_all found entries) sound room)))
