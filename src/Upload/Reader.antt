-- ===== src/Upload/Reader.antt =====
-- `ChannelReader` and `ProgressReader` of native/src/upload.rs. A read is given the room left in
-- the caller's buffer and returns the bytes it put there.
use kotlogram.Base.{
  ℕ, zero, suc, ◌+◌, ◌-◌, Bool, true, false, [], ◌∷◌, length, take, drop, min, Option, none, some,
  ltb, ◌==◌, if◌then◌else◌,
}
use kotlogram.Upload.Channel.{Channel, Chunk, Poll, ready, pending}
use kotlogram.Upload.Progress.{UploadProgress, add}

-- chunk.is_empty()
abbrev pub is_empty : Chunk → Bool
is_empty [] = true
is_empty (b ∷ bytes) = false

module _ (ch : Channel) where
  open ch use {Chan, queued, poll_recv}

  pub record ChannelReader : Type 0 where
    pub receiver : Chan
    pub current : Chunk
    pub position : ℕ

  unfoldable pub new : Chan → ChannelReader
  new receiver = record { receiver = receiver; current = []; position = 0 }

  -- The branch that hands over what is left of the current chunk.
  unfoldable pub hand_over : ChannelReader → ℕ → Chunk × ChannelReader
  hand_over r remaining =
      let available = drop r.position r.current in
      let count = min (length available) remaining in
      let position = r.position + count in
      (
        take count available,
        if position == length r.current
            then record r { current = []; position = 0 }
            else record r { position = position },
      )

  -- The reader after a chunk was received: an empty one is skipped.
  unfoldable pub received : ChannelReader → Chan → Chunk → ChannelReader
  received r receiver chunk =
      if is_empty chunk
      then record r { receiver = receiver }
      else record { receiver = receiver; current = chunk; position = 0 }

  -- The loop of `poll_read`, on fuel; `none` means that the fuel ran out.
  unfoldable pub poll_loop : ℕ → ChannelReader → ℕ → Option (Poll Chunk × ChannelReader)
  poll_loop zero r remaining = none
  poll_loop (suc fuel) r remaining =
      let (bytes, r') = hand_over r remaining in
      if ltb r.position (length r.current)
      then some (ready bytes, r')
      else elim (poll_recv r.receiver).0 [
        | ready o ↦ elim o [
          | some chunk ↦ poll_loop fuel (received r (poll_recv r.receiver).1 chunk) remaining
          | none ↦ some (ready [], record r { receiver = (poll_recv r.receiver).1 })
        ]
        | pending ↦ some (pending, record r { receiver = (poll_recv r.receiver).1 })
      ]

  -- Every turn but the last takes a chunk off the channel, or is followed by the last.
  unfoldable pub poll_read : ChannelReader → ℕ → Option (Poll Chunk × ChannelReader)
  poll_read r remaining = poll_loop (length (queued r.receiver) + 2) r remaining

  -- How many bytes are buffered and not handed over.
  unfoldable pub retained : ChannelReader → ℕ
  retained r = length r.current - r.position

  pub record ProgressReader : Type 0 where
    pub inner : ChannelReader
    pub progress : UploadProgress

  -- `ProgressReader::poll_read`: what a finished read put into the buffer is counted.
  unfoldable pub counted : UploadProgress → Poll Chunk × ChannelReader → Poll Chunk × ProgressReader
  counted p (ready bytes, r) =
      let read = length bytes in
      (ready bytes, record { inner = r; progress = if ltb 0 read then add read p else p })
  counted p (pending, r) = (pending, record { inner = r; progress = p })

  unfoldable pub progress_read : ProgressReader → ℕ → Option (Poll Chunk × ProgressReader)
  progress_read r remaining = elim (poll_read r.inner remaining) [
    | none ↦ none
    | some result ↦ some (counted r.progress result)
  ]
