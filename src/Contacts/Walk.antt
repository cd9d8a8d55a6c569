-- ===== src/Contacts/Walk.antt =====
-- The walk over the blocked peers collects the whole list, and ends.
use kotlogram.Base.{
  ℕ, zero, suc, ◌+◌, ◌-◌, ◌/◌, ◌%◌, ◌^◌, ◌≤◌, ◌<◌, ◌≡◌, refl, ap, ◌∙◌, true, false, List, [], ◌++◌,
  append-nil, append_assoc, length, take, drop, take-append-drop, take-length, length-take,
  length-drop, drop-drop, Option, none, some, ltb, arith,
}
use kotlogram.Error.{Result, ok}
use kotlogram.Contacts.{Page, Blocked, full_list, page_of, extend, walk, get_all_blocked}

module _ (PeerBlocked Chat User : Type 0) where
  -- Telegram answers, at every offset inside the list, a page with the next hundred peers, or those that
  -- are left.
  abbrev pub Serves :
      (ℕ → Result (Blocked PeerBlocked Chat User))
      → (ℕ → Page PeerBlocked Chat User)
      → List PeerBlocked
      → Type 0
  Serves telegram page_at all =
      (offset : ℕ)
      → offset ≤ length all
      → (answer : Blocked PeerBlocked Chat User) × (telegram offset ≡ ok answer)
        × (page_of PeerBlocked Chat User answer ≡ page_at offset)
        × ((page_at offset).blocked ≡ take 100 (drop offset all))

  -- What so many pages hold, from the one at the offset on.
  abbrev pub joined : (ℕ → Page PeerBlocked Chat User) → ℕ → ℕ → Page PeerBlocked Chat User
  joined page_at zero offset = record { blocked = []; chats = []; users = [] }
  joined page_at (suc n) offset =
      let page = page_at offset in
      let rest = joined page_at n (offset + 100) in
      record {
        blocked = page.blocked ++ rest.blocked;
        chats = page.chats ++ rest.chats;
        users = page.users ++ rest.users;
      }

  -- The walk ends with what is joined behind what was collected, and the peers are those of `rest`.
  abbrev Collects :
      Option (Result (Page PeerBlocked Chat User))
      → Page PeerBlocked Chat User
      → Page PeerBlocked Chat User
      → List PeerBlocked
      → Type 0
  Collects result collected more rest =
      (result ≡ some (ok (extend PeerBlocked Chat User collected more))) × (more.blocked ≡ rest)

  extend_assoc :
      (collected page more : Page PeerBlocked Chat User)
      → extend PeerBlocked Chat User (extend PeerBlocked Chat User collected page) more
        ≡ extend PeerBlocked Chat User collected (record {
          blocked = page.blocked ++ more.blocked;
          chats = page.chats ++ more.chats;
          users = page.users ++ more.users;
        })
  unfolding extend
  extend_assoc collected page more = rw (append_assoc, append_assoc, append_assoc)

  extend_last :
      (collected page : Page PeerBlocked Chat User)
      → extend PeerBlocked Chat User collected page
        ≡ extend PeerBlocked Chat User collected (record {
          blocked = page.blocked ++ [];
          chats = page.chats ++ [];
          users = page.users ++ [];
        })
  unfolding extend
  extend_last collected page =
      rw (append-nil page.blocked, append-nil page.chats, append-nil page.users)

  walk-Collects :
      (telegram : (ℕ → Result (Blocked PeerBlocked Chat User)))
      (page_at : (ℕ → Page PeerBlocked Chat User)) (all : List PeerBlocked)
      → length all < 2 ^ 31
      → Serves telegram page_at all
      → (fuel offset n : ℕ) (collected : Page PeerBlocked Chat User) → offset ≤ length all
      → n ≡ (length all - offset) / 100
      → n < fuel
      → Collects
          (walk PeerBlocked Chat User fuel telegram offset collected)
          collected
          (joined page_at (suc n) offset)
          (drop offset all)
  unfolding walk
  walk-Collects telegram page_at all small serves zero offset n collected inside pages enough =
      absurd (omega arith)
  walk-Collects telegram page_at all small serves (suc fuel) offset zero collected inside pages
        enough =
      let (answer, answered, same, served) = serves offset inside in
      let page = page_at offset in
      let rest = drop offset all in
      let left : length rest ≡ length all - offset = length-drop offset all in
      let size = length-take 100 rest in
      let part : length page.blocked ≡ length (take 100 rest) = ap length served in
      let short : ltb (length page.blocked) 100 ≡ true = ground (arith, size, part, left, pages) in
      let last : take 100 rest ≡ rest = take-length 100 rest (omega (arith, left, pages)) in
      (
        rw (answered, walk, same, short) (ap (λ p. some (ok p)) (extend_last collected page)),
        rw (append-nil page.blocked) (served ∙ last),
      )
  walk-Collects telegram page_at all small serves (suc fuel) offset (suc n) collected inside pages
        enough =
      let (answer, answered, same, served) = serves offset inside in
      let page = page_at offset in
      let rest = drop offset all in
      let left : length rest ≡ length all - offset = length-drop offset all in
      let size = length-take 100 rest in
      let part : length page.blocked ≡ length (take 100 rest) = ap length served in
      let hundred : length page.blocked ≡ 100 = omega (arith, size, part, left, pages) in
      let full : ltb (length page.blocked) 100 ≡ false = ground arith in
      let at : (offset + length page.blocked) % 2 ^ 32 ≡ offset + 100 =
        omega (arith, left, pages) in
      let (walked, found) =
        walk-Collects telegram page_at all small serves fuel (offset + 100) n
          (extend PeerBlocked Chat User collected page) (omega (arith, pages))
          (omega (arith, pages)) (omega arith) in
      (
        rw (answered, walk, same, full, at)
            (walked
              ∙ ap (λ p. some (ok p))
                  (extend_assoc collected page (joined page_at (suc n) (offset + 100)))),
        ap (λ l. page.blocked ++ l) found
            ∙ rw (served, ← drop-drop offset 100 all, take-append-drop),
      )

  -- Where Telegram serves a list of fewer than 2 ^ 31 blocked peers by pages of a hundred, the walk ends
  -- after one call for each whole hundred and one more, and answers the whole list, with the chats and the
  -- users of all those pages.
  pub get_all_blocked_complete :
      (telegram : (ℕ → Result (Blocked PeerBlocked Chat User)))
      (page_at : (ℕ → Page PeerBlocked Chat User)) (all : List PeerBlocked) (fuel : ℕ)
      → length all < 2 ^ 31
      → Serves telegram page_at all
      → length all / 100 < fuel
      → (get_all_blocked PeerBlocked Chat User fuel telegram
          ≡ some (ok (joined page_at (suc (length all / 100)) 0)))
        × ((joined page_at (suc (length all / 100)) 0).blocked ≡ all)
  unfolding get_all_blocked extend
  get_all_blocked_complete telegram page_at all fuel small serves enough =
      walk-Collects telegram page_at all small serves fuel 0 (length all / 100)
        (record { blocked = []; chats = []; users = [] }) (omega arith)
        (ap (λ n. n / 100) (omega arith)) enough

  full_list-walk :
      (telegram : (ℕ → Result (Blocked PeerBlocked Chat User))) (page : Page PeerBlocked Chat User)
      → 100 ≤ length page.blocked
      → ((offset : ℕ) → telegram offset ≡ ok (full_list page))
      → (fuel offset : ℕ) (collected : Page PeerBlocked Chat User)
      → walk PeerBlocked Chat User fuel telegram offset collected ≡ none
  unfolding walk
  full_list-walk telegram page long answers zero offset collected = refl
  full_list-walk telegram page long answers (suc fuel) offset collected =
      let full : ltb (length page.blocked) 100 ≡ false = ground arith in
      rw (answers offset, walk, full)
        (full_list-walk telegram page long answers fuel ((offset + length page.blocked) % 2 ^ 32)
          (extend PeerBlocked Chat User collected page))

  -- Where Telegram answers every request with the full list, of a hundred peers or more, the walk
  -- does not end, however many requests it is given.
  pub get_all_blocked-full_list :
      (telegram : (ℕ → Result (Blocked PeerBlocked Chat User))) (page : Page PeerBlocked Chat User)
      (fuel : ℕ)
      → 100 ≤ length page.blocked
      → ((offset : ℕ) → telegram offset ≡ ok (full_list page))
      → get_all_blocked PeerBlocked Chat User fuel telegram ≡ none
  unfolding get_all_blocked
  get_all_blocked-full_list telegram page fuel long answers =
      full_list-walk telegram page long answers fuel 0
        (record { blocked = []; chats = []; users = [] })
