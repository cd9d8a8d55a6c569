-- ===== src/Dialogs/Pages.antt =====
-- A listing answers the documents of the part that it is asked for, and registers their peers.
use kotlogram.Base.{
  ℕ, ◌+◌, ◌^◌, ◌<◌, ◌≡◌, false, List, [], ◌∷◌, length, take, Option, none, some, if◌then◌else◌,
}
use kotlogram.Error.{ok}
use kotlogram.Client.{Telegram, KnownPeers}
use kotlogram.Client.Peers.{register_all}
use kotlogram.Client.Documents.{Described}
use kotlogram.Dialogs.{DialogsPayload, DialogsCursor, clamp, from_payload, or_default}
use kotlogram.Dialogs.Documents.{Messages, Dialog}
use kotlogram.Dialogs.Listing.{matches, Iterator}
use kotlogram.Dialogs.Registering.{peers_of, registered}

module _ (t : Telegram) (d : Described t) (ms : Messages t) where
  -- A walk that meets no error.
  abbrev pub yields : List (Dialog t d ms) → Iterator t d ms
  yields [] = []
  yields (x ∷ xs) = ok x ∷ yields xs

  -- What follows the first dialog that a cursor matches, and nothing if it matches none.
  abbrev pub after : DialogsCursor → List (Dialog t d ms) → List (Dialog t d ms)
  after cursor [] = []
  after cursor (x ∷ xs) = if matches t d ms cursor x then xs else after cursor xs

  -- The loop over the rest of a page or of the list, after a dialog of it.
  module _ (k : KnownPeers t) (x : Dialog t d ms) (xs : List (Dialog t d ms))
      (sound : k.peers.is_poisoned ≡ false)
      (room : k.next_peer_handle + length (registered t d ms (x ∷ xs)) < 2 ^ 64) where
    abbrev next_state : KnownPeers t
    next_state = register_all t k (peers_of t d ms x)

  -- The page that a payload without `all` asks for has at least one place and at most a hundred.
  abbrev pub page_size : DialogsPayload → ℕ
  page_size payload = clamp 1 100 (or_default 50 payload.limit)

  abbrev pub selected :
      Option DialogsCursor → DialogsPayload → List (Dialog t d ms) → List (Dialog t d ms)
  selected none payload xs = take (page_size payload) xs
  selected (some cursor) payload xs = take (page_size payload) (after cursor xs)

  -- The part of the list that a payload asks for.
  abbrev pub asked : DialogsPayload → List (Dialog t d ms) → List (Dialog t d ms)
  asked payload xs =
      if or_default false payload.all then xs else selected (from_payload payload) payload xs
