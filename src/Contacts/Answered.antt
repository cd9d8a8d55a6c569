-- ===== src/Contacts/Answered.antt =====
-- What a listing of blocked peers answers, and what it registers.
use kotlogram.Base.{
  ℕ, ◌+◌, ◌^◌, ◌<◌, ◌≡◌, refl, false, List, [], ◌∷◌, ◌++◌, length, length-append, length-map, map,
  Option, Option-cases, inl, inr, arith,
}
use kotlogram.Base.Int.{ℤ}
use kotlogram.Base.Dates.{to_millis}
use kotlogram.Error.{ok}
use kotlogram.Users.Documents.{user_dto}
use kotlogram.Client.{Telegram, KnownPeers, register_peer}
use kotlogram.Client.Documents.{Described, PeerDto, described}
use kotlogram.Client.Peers.{register_all, next_peer_handle-register_peer}
use kotlogram.Client.Listed.{
  found_all, numbered, Resolve, peer_dto-registers, sound_after, register_all-Resolve,
  register_all_sound, register_all-append, next_peer_handle-register_all,
}
use kotlogram.Chatlists.Objects.{Objects}
use kotlogram.Chatlists.Documents.{resolved}
use kotlogram.Contacts.{Page}
use kotlogram.Contacts.Documents.{
  ContactUserDto, BlockedPeerDto, BlockedContactsDto, contact_user_dto, contact_users_dto,
}
use kotlogram.Contacts.Handlers.{PeerBlocked, blocked_row, blocked_rows, project_blocked}
use kotlogram.Contacts.Described.{contact_peer_dto-missing, contact_peer_dto-Registers}

abbrev pub row_peers : List BlockedPeerDto → List PeerDto
row_peers rows = map (λ row. row.peer) rows

abbrev pub user_peers : List ContactUserDto → List PeerDto
user_peers rows = map (λ row. row.peer) rows

module _ (t : Telegram) (d : Described t) where
  numbered-append :
      (first : ℕ) (left right : List t.Peer)
      → numbered t d first (left ++ right)
        ≡ numbered t d first left ++ numbered t d (first + length left) right
  numbered-append first [] right = let same : first + 0 ≡ first = omega arith in rw same
  numbered-append first (peer ∷ left) right =
      let same : first + length (peer ∷ left) ≡ first + 1 + length left = omega arith in
      rw (same, numbered-append (first + 1) left right)

module _ (t : Telegram) (d : Described t) (o : Objects t) where
  abbrev UsersAnswered : KnownPeers t → List o.RawUser → Type 0
  UsersAnswered k users =
      (rows : List ContactUserDto) × (contact_users_dto t d o users k
        ≡ (ok rows, register_all t k (map o.user_peer users)))
      × (user_peers rows ≡ numbered t d k.next_peer_handle (map o.user_peer users))

  contact_users_dto-UsersAnswered :
      (k : KnownPeers t) (users : List o.RawUser)
      → k.peers.is_poisoned ≡ false
      → k.next_peer_handle + length users < 2 ^ 64
      → UsersAnswered k users
  unfolding contact_users_dto contact_user_dto
  contact_users_dto-UsersAnswered k [] sound room = ([], refl, refl)
  contact_users_dto-UsersAnswered k (raw ∷ users) sound room =
      let peer = o.user_peer raw in
      let next = next_peer_handle-register_peer t k peer (omega arith) in
      let (rows, answered, peers) =
        contact_users_dto-UsersAnswered (register_peer t peer k).1 users
          (sound_after t d k peer sound) (omega (arith, next)) in
      (
        record { user = user_dto (o.client_user raw); peer = described t d k.next_peer_handle peer }
            ∷ rows,
        rw (peer_dto-registers t d k peer sound, answered),
        rw (peers, next),
      )

  module _ (users : List o.RawUser) (chats : List o.RawChat) where
    abbrev pub found : PeerBlocked t d o → Option t.Peer
    found entry = resolved t d o chats users entry.peer_id

    abbrev RowsAnswered : KnownPeers t → List (PeerBlocked t d o) → Type 0
    RowsAnswered k blocked =
        (rows : List BlockedPeerDto) × (blocked_rows t d o blocked users chats k
          ≡ (ok rows, register_all t k (found_all found blocked)))
        × (row_peers rows ≡ numbered t d k.next_peer_handle (found_all found blocked))

    blocked_rows-RowsAnswered :
        (k : KnownPeers t) (blocked : List (PeerBlocked t d o))
        → k.peers.is_poisoned ≡ false
        → k.next_peer_handle + length (found_all found blocked) < 2 ^ 64
        → RowsAnswered k blocked
    unfolding blocked_rows blocked_row
    blocked_rows-RowsAnswered k [] sound room = ([], refl, refl)
    blocked_rows-RowsAnswered k (entry ∷ blocked) sound room = elim (Option-cases (found entry)) [
      | inl missing ↦
          let (rows, answered, peers) =
            blocked_rows-RowsAnswered k blocked sound (rw missing at room) in
          (
            rows,
            rw (
              contact_peer_dto-missing t d o users chats entry.peer_id k missing,
              answered,
              missing,
            ),
            rw (missing, peers),
          )
      | inr (peer, here) ↦
          let room = rw here at room in
          let next = next_peer_handle-register_peer t k peer (omega arith) in
          let (account, registers) =
            contact_peer_dto-Registers t d o users chats entry.peer_id k peer sound here in
          let (rows, answered, peers) =
            blocked_rows-RowsAnswered (register_peer t peer k).1 blocked
              (sound_after t d k peer sound) (omega (arith, next)) in
          (
            record {
              date = to_millis entry.date;
              user = account;
              peer = described t d k.next_peer_handle peer;
            }
                ∷ rows,
            rw (registers, answered, here),
            rw (here, peers, next),
          )
    ]

  -- The peers that an answer registers: those of its rows, and then those of its users.
  abbrev pub registered : Page (PeerBlocked t d o) o.RawChat o.RawUser → List t.Peer
  registered page =
      found_all (found page.users page.chats) page.blocked ++ map o.user_peer page.users

  -- Where the lock is not poisoned and the 64-bit counter has room: a listing of blocked peers
  -- succeeds with the count that it was given. Its rows are the blocked peers whose objects the answer
  -- carries, in order, and its users are those of the answer, each under a handle of its own that counts on
  -- from the next one; and every one of those handles resolves to its peer afterwards.
  pub project_blocked-Resolve :
      (page : Page (PeerBlocked t d o) o.RawChat o.RawUser) (count : Option ℤ) (k : KnownPeers t)
      → k.peers.is_poisoned ≡ false
      → k.next_peer_handle + length (registered page) < 2 ^ 64
      → (document : BlockedContactsDto) × (project_blocked t d o page count k
          ≡ (ok document, register_all t k (registered page)))
        × (document.count ≡ count)
        × (row_peers document.blocked ++ user_peers document.users
            ≡ numbered t d k.next_peer_handle (registered page))
        × Resolve t d (register_all t k (registered page)) k.next_peer_handle (registered page)
  unfolding project_blocked
  project_blocked-Resolve page count k sound room =
      let peers = found_all (found page.users page.chats) page.blocked in
      let users = map o.user_peer page.users in
      let whole : length (registered page) ≡ length peers + length users =
        length-append peers users in
      let same : length users ≡ length page.users = length-map o.user_peer page.users in
      let (rows, answered, row_documents) =
        blocked_rows-RowsAnswered page.users page.chats k page.blocked sound
          (omega (arith, whole)) in
      let after = register_all t k peers in
      let next = next_peer_handle-register_all t d k peers (omega (arith, whole)) in
      let (user_rows, users_answered, user_documents) =
        contact_users_dto-UsersAnswered after page.users (register_all_sound t d k peers sound)
          (omega (arith, whole, same, next)) in
      (
        record { count = count; blocked = rows; users = user_rows },
        rw (answered, users_answered, register_all-append t d k peers users),
        refl,
        rw (
          row_documents,
          user_documents,
          next,
          numbered-append t d k.next_peer_handle peers users,
        ),
        register_all-Resolve t d k (registered page) sound room,
      )
