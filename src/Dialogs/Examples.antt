-- ===== src/Dialogs/Examples.antt =====
-- Two dialogs of which the first has a message with a peer, listed by pages of one.
use kotlogram.Base.{ℕ, ◌+◌, [], ◌∷◌, ◌≡◌, refl, false, none, some}
use kotlogram.Base.Int.{pos}
use kotlogram.Exec.{unlocked}
use kotlogram.Client.{KnownPeers}
use kotlogram.Client.Numbers.{numbers, described_numbers}
use kotlogram.Dialogs.{DialogsPayload, from_payload, clamp}
use kotlogram.Dialogs.Layer.{RawDialog}
use kotlogram.Dialogs.Documents.{Messages, Dialog}
use kotlogram.Dialogs.Listing.{matches}
use kotlogram.Dialogs.Pages.{asked}

-- The message of a peer has the id of the peer and ten.
abbrev messages : Messages numbers
messages = record {
  Message = ℕ;
  Fields = ℕ;
  id = λ message. pos (message + 10);
  date = λ message. pos 99;
  peer = λ message. some message;
  fields = λ message. message;
}

abbrev row : ℕ → Dialog numbers described_numbers messages
row n = record { peer = n; last_message = some n; raw = RawDialog.community false }

abbrev after_one : DialogsPayload
after_one = record {
  all = none;
  limit = some 1;
  offset_peer = some (pos 1);
  offset_id = some (pos 11);
  offset_date = some (pos 99);
}

abbrev first_handle : KnownPeers numbers
first_handle = record { peers = unlocked []; next_peer_handle = 1 }

second_row :
    asked numbers described_numbers messages after_one (row 1 ∷ row 2 ∷ row 3 ∷ []) ≡ row 2 ∷ []
unfolding matches from_payload clamp
second_row = refl
