-- ===== src/Upload/Reading.antt =====
-- One read of a `ChannelReader`: it ends, and hands over a prefix of the bytes not yet read.
use mathlib.Core.List.{flatten}
use kotlogram.Base.{
  ℕ, zero, suc, ◌+◌, ◌-◌, ◌≤◌, ◌<◌, ◌≡◌, ◌⊎◌, inl, inr, refl, sym, ap, ◌∙◌, false, List, [], ◌∷◌,
  ◌++◌, append_assoc, length, take, drop, min, take-append-drop, drop-drop, drop-length,
  take-length, length-take, length-drop, Option, none, some, ltb, ◌==◌, Bool-cases, arith,
}
use kotlogram.Upload.Channel.{Channel, Chunk, Poll, ready, pending}
use kotlogram.Upload.Reader.{ChannelReader, hand_over, received, poll_loop, poll_read}

module _ (ch : Channel) where
  open ch use {Chan, queued, is_open, poll_recv, recv-some, recv-none, recv-pending}

  -- The bytes that were sent and not yet handed over, oldest first.
  abbrev pub unread : ChannelReader ch → List ℕ
  unread r = drop r.position r.current ++ flatten (queued r.receiver)

  -- The channel failed to answer when it held just the bytes, and stayed as this receiver.
  abbrev pub FailsWith : List ℕ → Chan → Type 0
  FailsWith bytes receiver =
      (c : Chan) × ((poll_recv c).0 ≡ pending)
      × (flatten (queued c) ≡ bytes)
      × (receiver ≡ (poll_recv c).1)

  -- What a read of `n` bytes does: it hands over the next bytes, at most `n` of them, and none only
  -- if no room was given or the sender is gone and nothing is left; it waits only on the channel, when all
  -- the bytes that are left are there, and keeps them.
  abbrev pub Reads : ChannelReader ch → ℕ → Poll Chunk → ChannelReader ch → Type 0
  Reads r n (ready bytes) r' =
      (bytes ++ unread r' ≡ unread r)
      × (length bytes ≤ n)
      × ((bytes ≡ []) → (n ≡ 0) ⊎ ((unread r ≡ []) × (is_open r.receiver ≡ false)))
      × (is_open r'.receiver ≡ is_open r.receiver)
  Reads r n pending r' =
      (unread r' ≡ unread r)
      × FailsWith (unread r) r'.receiver
      × (is_open r'.receiver ≡ is_open r.receiver)

  hand_over-Reads :
      (r : ChannelReader ch) (n : ℕ)
      → r.position < length r.current
      → Reads r n (ready (hand_over ch r n).0) (hand_over ch r n).1
  unfolding hand_over
  hand_over-Reads r n h =
      let available = drop r.position r.current in
      let count = min (length available) n in
      let rest = flatten (queued r.receiver) in
      let size : length available ≡ length r.current - r.position =
        length-drop r.position r.current in
      let taken : length (take count available) ≡ min count (length available) =
        length-take count available in
      let few : length (take count available) ≤ n = omega arith in
      let none_taken : take count available ≡ [] → n ≡ 0 = λ e. omega (arith, ap length e) in
      elim (Bool-cases (r.position + count == length r.current)) [
        | inl all ↦
            let whole : length available ≤ count = ground (arith, size) in
            rw all (
              ap (λ bytes. bytes ++ rest) (take-length count available whole),
              few,
              (λ e. inl (none_taken e)),
              refl,
            )
        | inr part ↦ rw part (split r n, few, (λ e. inl (none_taken e)), refl)
      ]
    where
      split :
          (r : ChannelReader ch) (n : ℕ)
          → let count = min (length (drop r.position r.current)) n in
            take count (drop r.position r.current)
              ++ (drop (r.position + count) r.current ++ flatten (queued r.receiver))
            ≡ unread r
      split r n =
          let count = min (length (drop r.position r.current)) n in
          rw (← drop-drop r.position count r.current, ← append_assoc, take-append-drop)

  -- A chunk off the channel changes nothing of what is still to be read.
  received-unread :
      (r : ChannelReader ch) (chunk : Chunk)
      → length r.current ≤ r.position
      → (poll_recv r.receiver).0 ≡ ready (some chunk)
      → let c = (poll_recv r.receiver).1 in unread (received ch r c chunk) ≡ unread r
  unfolding received flatten
  received-unread r [] h e = rw (recv-some r.receiver [] e).0
  received-unread r (b ∷ bytes) h e =
      rw ((recv-some r.receiver (b ∷ bytes) e).0, drop-length r.position r.current h)

  received-receiver :
      (r : ChannelReader ch) (c : Chan) (chunk : Chunk) → (received ch r c chunk).receiver ≡ c
  unfolding received
  received-receiver r c [] = refl
  received-receiver r c (b ∷ bytes) = refl

  -- The read ends, and it is a read.
  abbrev pub Returns : ℕ → ChannelReader ch → ℕ → Type 0
  Returns fuel r n =
      (out : Poll Chunk) × (r' : ChannelReader ch) × (poll_loop ch fuel r n ≡ some (out, r'))
      × Reads r n out r'

  Reads-same :
      (r s : ChannelReader ch) (n : ℕ) (out : Poll Chunk) (r' : ChannelReader ch)
      → unread s ≡ unread r
      → is_open s.receiver ≡ is_open r.receiver
      → Reads s n out r'
      → Reads r n out r'
  Reads-same r s n (ready bytes) r' u o (same, few, ends, stays) =
      (same ∙ u, few, (λ e. rw (← u, ← o) (ends e)), stays ∙ o)
  Reads-same r s n pending r' u o (left, (c, failed, held, stayed), stays) =
      (left ∙ u, (c, failed, held ∙ u, stayed), stays ∙ o)

  -- One turn of the loop on what the channel answers, given that the next one ends.
  turn-Returns :
      (fuel : ℕ) (r : ChannelReader ch) (n : ℕ) (polled : Poll (Option Chunk))
      → (poll_recv r.receiver).0 ≡ polled
      → length (queued r.receiver) < suc fuel
      → length r.current ≤ r.position
      → ((s : ChannelReader ch) → length (queued s.receiver) < fuel → Returns fuel s n)
      → Returns (suc fuel) r n
  unfolding poll_loop flatten
  turn-Returns fuel r n pending e h done next =
      let nothing : drop r.position r.current ≡ [] = drop-length r.position r.current done in
      let stop : ltb r.position (length r.current) ≡ false = ground arith in
      let (left, still) = recv-pending r.receiver e in
      (
        pending,
        record r { receiver = (poll_recv r.receiver).1 },
        rw (stop, e),
        (rw (nothing, left), (r.receiver, e, rw nothing, refl), still),
      )
  turn-Returns fuel r n (ready none) e h done next =
      let nothing : drop r.position r.current ≡ [] = drop-length r.position r.current done in
      let stop : ltb r.position (length r.current) ≡ false = ground arith in
      let (empty, gone, left, still) = recv-none r.receiver e in
      (
        ready [],
        record r { receiver = (poll_recv r.receiver).1 },
        rw (stop, e),
        (rw (empty, left), omega arith, (λ _. inr (rw (nothing, empty), gone)), still ∙ sym gone),
      )
  turn-Returns fuel r n (ready (some chunk)) e h done next =
      let stop : ltb r.position (length r.current) ≡ false = ground arith in
      let (held, still) = recv-some r.receiver chunk e in
      let s = received ch r (poll_recv r.receiver).1 chunk in
      let on_channel = received-receiver r (poll_recv r.receiver).1 chunk in
      let fewer : length (queued (poll_recv r.receiver).1) < fuel = omega (arith, ap length held) in
      let (out, r', ran, reads) = next s (rw on_channel fewer) in
      (
        out,
        r',
        rw (stop, e) ran,
        Reads-same r s n out r' (received-unread r chunk done e) (rw on_channel still) reads,
      )

  poll_loop-Returns :
      (fuel : ℕ) (r : ChannelReader ch) (n : ℕ)
      → length (queued r.receiver) < fuel
      → Returns fuel r n
  unfolding poll_loop
  poll_loop-Returns zero r n h = absurd (omega arith)
  poll_loop-Returns (suc fuel) r n h = elim (Bool-cases (ltb r.position (length r.current))) [
    | inl more ↦ (
      ready (hand_over ch r n).0,
      (hand_over ch r n).1,
      rw more,
      hand_over-Reads r n (ground arith),
    )
    | inr done ↦
        turn-Returns fuel r n (poll_recv r.receiver).0 refl h (ground arith)
          (λ s. poll_loop-Returns fuel s n)
  ]

  -- A read always ends, whatever chunks are queued and whatever polls of the channel fail, and hands
  -- over the next bytes in the order in which they were sent, no more than it has room for: none is lost,
  -- repeated or moved. With room it answers no byte only when the sender is gone and every byte was
  -- handed over. It waits only when the channel itself does, at a point where no received byte is left to
  -- hand over, and it loses nothing.
  pub poll_read-Reads :
      (r : ChannelReader ch) (n : ℕ)
      → (out : Poll Chunk) × (r' : ChannelReader ch) × (poll_read ch r n ≡ some (out, r'))
        × Reads r n out r'
  unfolding poll_read
  poll_read-Reads r n = poll_loop-Returns (length (queued r.receiver) + 2) r n (omega arith)
