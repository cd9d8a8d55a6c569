-- ===== src/Contacts/Described.antt =====
-- The rows of a listing are the blocked peers that the answers describe.
use kotlogram.Base.{◌≡◌, subst, false, List, Option, none, some, Option-cases, inl, inr, arith}
use kotlogram.Base.Int.{ℤ}
use kotlogram.Error.{Result, ok}
use kotlogram.Chats.{PeerKind, user, chat, channel}
use kotlogram.Users.Documents.{UserDto, user_dto}
use kotlogram.Client.{Telegram, KnownPeers, register_peer}
use kotlogram.Client.Documents.{Described, described}
use kotlogram.Client.Listed.{peer_dto-registers}
use kotlogram.Chatlists.Objects.{Objects, find_id}
use kotlogram.Chatlists.Documents.{made, object_of, resolved}
use kotlogram.Contacts.Documents.{
  ContactPeerDto, contact_user_dto, user_found, chat_found, contact_of, contact_with_id,
  contact_peer_dto,
}

module _ (t : Telegram) (d : Described t) (o : Objects t) (users : List o.RawUser)
    (chats : List o.RawChat) where
  contact_of-missing :
      (kind : PeerKind) (bare : ℤ) (k : KnownPeers t)
      → object_of t d o chats users kind bare ≡ none
      → contact_of t d o users chats kind bare k ≡ (ok none, k)
  unfolding object_of contact_of user_found chat_found
  contact_of-missing user bare k missing = ground arith
  contact_of-missing chat bare k missing = ground arith
  contact_of-missing channel bare k missing = ground arith

  -- The answer that describes a peer, which it registers.
  abbrev Registers :
      (KnownPeers t → Result (Option ContactPeerDto) × KnownPeers t)
      → KnownPeers t
      → t.Peer
      → Type 0
  Registers answer k peer =
      (account : Option UserDto) × (answer k ≡ (
        ok (some (record { user = account; peer = described t d k.next_peer_handle peer })),
        (register_peer t peer k).1,
      ))

  user_found-registers :
      (k : KnownPeers t) (raw : o.RawUser)
      → k.peers.is_poisoned ≡ false
      → user_found t d o (some raw) k ≡ (
        ok (
            some (record {
              user = some (user_dto (o.client_user raw));
              peer = described t d k.next_peer_handle (o.user_peer raw);
            })),
        (register_peer t (o.user_peer raw) k).1,
      )
  unfolding user_found contact_user_dto
  user_found-registers k raw sound = rw (peer_dto-registers t d k (o.user_peer raw) sound)

  chat_found-registers :
      (k : KnownPeers t) (raw : o.RawChat)
      → k.peers.is_poisoned ≡ false
      → chat_found t d o (some raw) k ≡ (
        ok (
            some
              (record { user = none; peer = described t d k.next_peer_handle (o.chat_peer raw) })),
        (register_peer t (o.chat_peer raw) k).1,
      )
  unfolding chat_found
  chat_found-registers k raw sound = rw (peer_dto-registers t d k (o.chat_peer raw) sound)

  user_found-Registers :
      (k : KnownPeers t) (answer : Option o.RawUser) (peer : t.Peer)
      → k.peers.is_poisoned ≡ false
      → made o.user_peer answer ≡ some peer
      → Registers (user_found t d o answer) k peer
  user_found-Registers k none peer sound found = absurd (ground arith)
  user_found-Registers k (some raw) peer sound found = (
    some (user_dto (o.client_user raw)),
    subst
        (λ p. user_found t d o (some raw) k ≡ (
          ok (
              some (record {
                user = some (user_dto (o.client_user raw));
                peer = described t d k.next_peer_handle p;
              })),
          (register_peer t p k).1,
        ))
        (ground arith) (user_found-registers k raw sound),
  )

  chat_found-Registers :
      (k : KnownPeers t) (answer : Option o.RawChat) (peer : t.Peer)
      → k.peers.is_poisoned ≡ false
      → made o.chat_peer answer ≡ some peer
      → Registers (chat_found t d o answer) k peer
  chat_found-Registers k none peer sound found = absurd (ground arith)
  chat_found-Registers k (some raw) peer sound found = (
    none,
    subst
        (λ p. chat_found t d o (some raw) k ≡ (
          ok (some (record { user = none; peer = described t d k.next_peer_handle p })),
          (register_peer t p k).1,
        ))
        (ground arith) (chat_found-registers k raw sound),
  )

  contact_of-Registers :
      (kind : PeerKind) (bare : ℤ) (k : KnownPeers t) (peer : t.Peer)
      → k.peers.is_poisoned ≡ false
      → object_of t d o chats users kind bare ≡ some peer
      → Registers (contact_of t d o users chats kind bare) k peer
  unfolding object_of contact_of
  contact_of-Registers user bare k peer sound found =
      user_found-Registers k (find_id o.user_id bare users) peer sound found
  contact_of-Registers chat bare k peer sound found =
      chat_found-Registers k (find_id o.chat_id bare chats) peer sound found
  contact_of-Registers channel bare k peer sound found =
      chat_found-Registers k (find_id o.chat_id bare chats) peer sound found

  pub contact_peer_dto-missing :
      (peer : o.LayerPeer) (k : KnownPeers t)
      → resolved t d o chats users peer ≡ none
      → contact_peer_dto t d o peer users chats k ≡ (ok none, k)
  unfolding resolved contact_peer_dto contact_with_id
  contact_peer_dto-missing peer k missing = elim (Option-cases (o.bare_id peer)) [
    | inl unnamed ↦ rw unnamed
    | inr (bare, here) ↦
        rw here (contact_of-missing (o.kind peer) bare k (rw (here, resolved) at missing))
  ]

  pub contact_peer_dto-Registers :
      (reference : o.LayerPeer) (k : KnownPeers t) (peer : t.Peer)
      → k.peers.is_poisoned ≡ false
      → resolved t d o chats users reference ≡ some peer
      → Registers (contact_peer_dto t d o reference users chats) k peer
  unfolding resolved contact_peer_dto contact_with_id
  contact_peer_dto-Registers reference k peer sound found =
      elim (Option-cases (o.bare_id reference)) [
        | inl unnamed ↦ absurd (ground arith)
        | inr (bare, here) ↦ rw here (
            contact_of-Registers (o.kind reference) bare k peer sound
              (rw (here, resolved) at found))
      ]
