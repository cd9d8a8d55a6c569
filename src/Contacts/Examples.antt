-- ===== src/Contacts/Examples.antt =====
-- A list of a hundred and one blocked peers, one that is answered whole every time, and a page of three.
use kotlogram.Base.{
  ℕ, suc, length, ◌/◌, ◌^◌, ◌≡◌, refl, Bool, true, false, List, [], ◌∷◌, ◌++◌, map, replicate, take,
  drop, none, some, ltb, ◌==◌, if◌then◌else◌, arith,
}
use kotlogram.Base.Int.{ℤ, pos, pos_part}
use kotlogram.Error.{Result, ok}
use kotlogram.Exec.{unlocked}
use kotlogram.Chats.{user, channel}
use kotlogram.Users.Documents.{ClientUser, UserStatus}
use kotlogram.Client.{KnownPeers}
use kotlogram.Client.Peers.{register_all}
use kotlogram.Client.Listed.{numbered, Resolve}
use kotlogram.Client.Numbers.{numbers, described_numbers}
use kotlogram.Chatlists.Objects.{Objects, find_id}
use kotlogram.Chatlists.Documents.{object_of, resolved}
use kotlogram.Contacts.{Page, Blocked, full_list, slice, get_all_blocked}
use kotlogram.Contacts.Documents.{BlockedContactsDto}
use kotlogram.Contacts.Requests.{GetBlockedPayload, signed_32}
use kotlogram.Contacts.Handlers.{PeerBlocked, project_blocked, blocked_at, get_blocked}
use kotlogram.Contacts.Walk.{Serves, joined, get_all_blocked-full_list}
use kotlogram.Contacts.Whole.{get_blocked-every}
use kotlogram.Contacts.Answered.{row_peers, user_peers, registered, project_blocked-Resolve}

abbrev many : List ℕ
many = 7 ∷ replicate 100 5

abbrev at_once : ℕ → Result (Blocked ℕ ℕ ℕ)
at_once offset = ok (full_list (record { blocked = many; chats = []; users = [] }))

get_all_blocked-full_list_example : get_all_blocked ℕ ℕ ℕ 9 at_once ≡ none
get_all_blocked-full_list_example =
    get_all_blocked-full_list ℕ ℕ ℕ at_once (record { blocked = many; chats = []; users = [] }) 9
      (omega arith) (λ offset. refl)

abbrev account : ClientUser
account = record {
  bare_id = none;
  username = none;
  first_name = some "A";
  last_name = none;
  full_name = "A";
  usernames = [];
  phone = none;
  photo_id = none;
  status = UserStatus.empty;
  lang_code = none;
  is_self = false;
  contact = true;
  mutual_contact = false;
  deleted = false;
  is_bot = false;
  bot_privacy = false;
  bot_supports_chats = false;
  bot_inline_geo = false;
  bot_inline_placeholder = none;
  verified = false;
  restricted = false;
  support = false;
  scam = false;
  restriction_reason = [];
}

abbrev objects : Objects numbers
objects = record {
  LayerPeer = ℕ;
  RawUser = ℕ;
  RawChat = ℕ;
  kind = λ peer. if peer == 7 then channel else user;
  bare_id = λ peer. if peer == 5 then none else some (pos peer);
  bot_api_dialog_id = λ peer. some (pos peer);
  user_id = pos;
  chat_id = pos;
  client_user = λ raw. account;
  user_peer = λ raw. raw;
  chat_peer = λ raw. raw;
}

abbrev entry : ℕ → PeerBlocked numbers described_numbers objects
entry peer = record { peer_id = peer; date = pos 1 }

abbrev entries : List (PeerBlocked numbers described_numbers objects)
entries = map entry many

-- Every page carries a user of its own.
abbrev page_at : ℕ → Page (PeerBlocked numbers described_numbers objects) ℕ ℕ
page_at offset = record {
  blocked = take 100 (drop offset entries);
  chats = [];
  users = offset ∷ [];
}

abbrev invoke : Bool → ℤ → ℤ → Result (Blocked (PeerBlocked numbers described_numbers objects) ℕ ℕ)
invoke my_stories_from offset limit = ok (slice (pos 101) (page_at (pos_part offset)))

invoke-Serves :
    Serves
      (PeerBlocked numbers described_numbers objects)
      ℕ
      ℕ
      (blocked_at numbers described_numbers objects invoke false)
      page_at
      entries
unfolding signed_32
invoke-Serves offset inside =
    let small : ltb offset (2 ^ 31) ≡ true = ground arith in
    (slice (pos 101) (page_at offset), rw small, refl, refl)

abbrev every_one : GetBlockedPayload
every_one = record { my_stories_from = false; offset = pos 40; limit = some (pos 3); all = true }

get_blocked-every_example :
    let page =
      joined
        (PeerBlocked numbers described_numbers objects)
        ℕ
        ℕ
        page_at
        (suc (length entries / 100))
        0 in
    (get_blocked numbers described_numbers objects invoke 2 every_one
      ≡ some (project_blocked numbers described_numbers objects page none))
    × (page.blocked ≡ entries)
get_blocked-every_example =
    get_blocked-every numbers described_numbers objects invoke every_one page_at entries 2 refl
      (omega arith) invoke-Serves (omega arith)

-- A channel and a user that the answer carries, and a user that it does not.
abbrev three_blocked : Page (PeerBlocked numbers described_numbers objects) ℕ ℕ
three_blocked = record {
  blocked = entry 7 ∷ entry 9 ∷ entry 8 ∷ [];
  chats = 7 ∷ [];
  users = 6 ∷ 8 ∷ [];
}

three_registered : registered numbers described_numbers objects three_blocked ≡ 7 ∷ 8 ∷ 6 ∷ 8 ∷ []
unfolding resolved object_of find_id
three_registered = refl

abbrev none_known : KnownPeers numbers
none_known = record { peers = unlocked []; next_peer_handle = 1 }

project_blocked-Resolve_example :
    (document : BlockedContactsDto) × (project_blocked numbers described_numbers objects
        three_blocked
        (some (pos 3))
        none_known
      ≡ (
        ok document,
        register_all numbers none_known
            (registered numbers described_numbers objects three_blocked),
      ))
    × (document.count ≡ some (pos 3))
    × (row_peers document.blocked ++ user_peers document.users
        ≡ numbered numbers described_numbers 1
            (registered numbers described_numbers objects three_blocked))
    × Resolve numbers described_numbers
        (register_all numbers none_known
          (registered numbers described_numbers objects three_blocked))
        1
        (registered numbers described_numbers objects three_blocked)
unfolding resolved object_of find_id
project_blocked-Resolve_example =
    project_blocked-Resolve numbers described_numbers objects three_blocked (some (pos 3))
      none_known refl (omega arith)
