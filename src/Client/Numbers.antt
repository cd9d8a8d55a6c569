-- ===== src/Client/Numbers.antt =====
-- Peers that are numbers, at which the theorems on listings are run.
use kotlogram.Base.{ℕ, true, false, [], none, some, ◌==◌}
use kotlogram.Base.Int.{pos}
use kotlogram.Error.{ok}
use kotlogram.Client.{Telegram}
use kotlogram.Client.Documents.{Shape, Described}

abbrev pub numbers : Telegram
numbers = record {
  Peer = ℕ;
  PeerRef = ℕ;
  is_self = λ peer. peer == 0;
  to_ref = λ peer. ok (some peer);
  self_peer_ref = 0;
  resolve_username = λ username. ok none;
}

abbrev pub described_numbers : Described numbers
described_numbers = record {
  shape = λ peer. Shape.group true;
  bot_api_dialog_id = λ peer. some (pos peer);
  username = λ peer. none;
  name = λ peer. some "a group";
  usernames = λ peer. [];
  has_photo = λ peer. false;
}
