-- ===== src/Chats/PeerIds.antt =====
-- Which Bot API dialog ids are read back, and which are refused.
use kotlogram.Base.{ℕ, suc, ◌+◌, ◌-◌, ◌≤◌, ◌<◌, ◌≡◌, Option, arith}
use kotlogram.Base.Int.{ℤ, pos, negsuc, neg, ◌-ℤ◌}
use kotlogram.Error.{err, ok_or, not_a_peer_id}
use kotlogram.Chats.{PeerKind, user, chat, channel, peer_id_from_bot_api_id}

-- The encoding that the operation's comment describes, and the largest bare id of each kind.
abbrev pub bot_api_dialog_id : PeerKind → ℕ → ℤ
bot_api_dialog_id user n = pos n
bot_api_dialog_id chat n = neg (pos n)
bot_api_dialog_id channel n = neg (pos (n + 1000000000000))

abbrev pub largest : PeerKind → ℕ
largest user = 0xffffffffff
largest chat = 999999999999
largest channel = 997852516352

neg-pos : (n : ℕ) → 0 < n → neg (pos n) ≡ negsuc (n - 1)
neg-pos n h = ground arith

module _ {PeerId : Type 0} (make : PeerKind → ℤ → Option PeerId) where
  negative_chat :
      (k n : ℕ)
      → n ≡ suc k
      → n ≤ 999999999999
      → peer_id_from_bot_api_id make (negsuc k)
        ≡ ok_or (make chat (pos n)) (not_a_peer_id (negsuc k))
  unfolding peer_id_from_bot_api_id
  negative_chat k n e le = ground arith

  negative_channel :
      (k n : ℕ)
      → n + 1000000000000 ≡ suc k
      → n ≤ 997852516352
      → 0 < n
      → peer_id_from_bot_api_id make (negsuc k)
        ≡ ok_or (make channel (pos n)) (not_a_peer_id (negsuc k))
  unfolding peer_id_from_bot_api_id ◌-ℤ◌
  negative_channel k n e le h = ground arith

  refused :
      (k : ℕ)
      → 2002147483648 ≤ k
      → k < 4000000000000
      → peer_id_from_bot_api_id make (negsuc k) ≡ err (not_a_peer_id (negsuc k))
  unfolding peer_id_from_bot_api_id
  refused k low high = ground arith

  -- The dialog id of a user, a small group or an ordinary channel is read back as the bare id of that
  -- kind, and refused only where grammers has no such peer id.
  pub peer_id_from_bot_api_id-encoded :
      (kind : PeerKind) (n : ℕ)
      → 0 < n
      → n ≤ largest kind
      → peer_id_from_bot_api_id make (bot_api_dialog_id kind n)
        ≡ ok_or (make kind (pos n)) (not_a_peer_id (bot_api_dialog_id kind n))
  unfolding peer_id_from_bot_api_id ◌-ℤ◌
  peer_id_from_bot_api_id-encoded user n h le = ground arith
  peer_id_from_bot_api_id-encoded chat n h le =
      rw (neg-pos n h) (negative_chat (n - 1) n (omega arith) (omega arith))
  peer_id_from_bot_api_id-encoded channel n h le =
      rw (neg-pos (n + 1000000000000) (omega arith))
        (negative_channel (n + 1000000000000 - 1) n (omega arith) (omega arith) h)

  -- Every id from -4000000000000 to -2002147483649 is refused, whatever grammers would make of
  -- it.
  pub peer_id_from_bot_api_id-monoforum :
      (m : ℕ)
      → 2002147483649 ≤ m
      → m ≤ 4000000000000
      → peer_id_from_bot_api_id make (neg (pos m)) ≡ err (not_a_peer_id (neg (pos m)))
  unfolding peer_id_from_bot_api_id
  peer_id_from_bot_api_id-monoforum m low high =
      rw (neg-pos m (omega arith)) (refused (m - 1) (omega arith) (omega arith))
