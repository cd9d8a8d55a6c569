-- ===== src/Contacts/Whole.antt =====
-- `contactsGetBlocked` with `all` ends, and projects the whole list.
use kotlogram.Base.{ℕ, suc, ◌/◌, ◌^◌, ◌<◌, ◌≡◌, Bool, true, List, length, none, some}
use kotlogram.Base.Int.{ℤ}
use kotlogram.Error.{Result}
use kotlogram.Client.{Telegram}
use kotlogram.Client.Documents.{Described}
use kotlogram.Chatlists.Objects.{Objects}
use kotlogram.Contacts.{Page, Blocked}
use kotlogram.Contacts.Requests.{GetBlockedPayload, blocked_plan}
use kotlogram.Contacts.Handlers.{
  PeerBlocked, project_blocked, blocked_at, project_walk, follow_plan, get_blocked,
}
use kotlogram.Contacts.Walk.{Serves, joined, get_all_blocked_complete}

module _ (t : Telegram) (d : Described t) (o : Objects t)
    (invoke : (Bool
      → (offset limit : ℤ) → Result (Blocked (PeerBlocked t d o) o.RawChat o.RawUser))) where
  -- Where Telegram serves a list of fewer than 2 ^ 31 blocked peers by pages of a hundred: a request for all
  -- of them, whatever offset and limit come with it, ends within one call for each whole hundred and one
  -- more. It lists, without a count, what a single page would list that held the whole list, in order and
  -- each peer once, with the chats and the users of all those pages.
  pub get_blocked-every :
      (payload : GetBlockedPayload) (page_at : (ℕ → Page (PeerBlocked t d o) o.RawChat o.RawUser))
      (whole : List (PeerBlocked t d o)) (fuel : ℕ)
      → payload.all ≡ true
      → length whole < 2 ^ 31
      → Serves
          (PeerBlocked t d o)
          o.RawChat
          o.RawUser
          (blocked_at t d o invoke payload.my_stories_from)
          page_at
          whole
      → length whole / 100 < fuel
      → let page =
          joined (PeerBlocked t d o) o.RawChat o.RawUser page_at (suc (length whole / 100)) 0 in
        (get_blocked t d o invoke fuel payload ≡ some (project_blocked t d o page none))
        × (page.blocked ≡ whole)
  unfolding get_blocked blocked_plan follow_plan project_walk
  get_blocked-every payload page_at whole fuel wanted small serves enough =
      let (ended, same) =
        get_all_blocked_complete (PeerBlocked t d o) o.RawChat o.RawUser
          (blocked_at t d o invoke payload.my_stories_from) page_at whole fuel small serves
          enough in
      (rw (wanted, ended), same)
