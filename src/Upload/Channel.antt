-- ===== src/Upload/Channel.antt =====
-- The bounded channel that a streamed upload reads, `tokio::sync::mpsc`. It is not part of the
-- repository, so it is an interface: the operations that native/src/upload.rs calls, a view of what
-- the channel holds, and the documented behaviour of each operation over that view. A channel also holds what the runtime
-- keeps for its task, such as the budget of polls, which decides on spurious failures.
use kotlogram.Base.{ℕ, ◌≤◌, ◌≡◌, Bool, true, false, List, [], ◌∷◌, ◌++◌, length, Option, none, some}

pub data Poll {ℓ} (A : Type ℓ) : Type ℓ where
  ready : A → Poll A
  pending : Poll A

-- A chunk of bytes, a `Vec<u8>`.
abbrev pub Chunk : Type 0
Chunk = List ℕ

pub record Channel : Type 1 where
  pub Chan : Type 0
  pub capacity : ℕ
  -- The chunks that wait, oldest first, and whether a sender is alive.
  pub queued : Chan → List Chunk
  pub is_open : Chan → Bool
  -- Receiver::poll_recv
  pub poll_recv : Chan → Poll (Option Chunk) × Chan
  -- Sender::try_send: refused when the channel is full or closed
  pub try_send : Chan → Chunk → Option Chan
  -- dropping the last sender
  pub close : Chan → Chan
  -- A message is the oldest one that waits. The end is answered once the sender is gone and every message
  -- was received. `Pending` leaves the messages where they are; a failure can be spurious, so it says
  -- nothing of what waits.
  pub recv-some :
      (c : Chan) (x : Chunk)
      → (poll_recv c).0 ≡ ready (some x)
      → (queued c ≡ x ∷ queued (poll_recv c).1) × (is_open (poll_recv c).1 ≡ is_open c)
  pub recv-none :
      (c : Chan)
      → (poll_recv c).0 ≡ ready none
      → (queued c ≡ [])
        × (is_open c ≡ false)
        × (queued (poll_recv c).1 ≡ [])
        × (is_open (poll_recv c).1 ≡ false)
  pub recv-pending :
      (c : Chan)
      → (poll_recv c).0 ≡ pending
      → (queued (poll_recv c).1 ≡ queued c) × (is_open (poll_recv c).1 ≡ is_open c)
  pub send-some :
      (c d : Chan) (x : Chunk)
      → try_send c x ≡ some d
      → (queued d ≡ queued c ++ x ∷ [])
        × (is_open c ≡ true)
        × (is_open d ≡ true)
        × (length (queued d) ≤ capacity)
  pub queued-close : (c : Chan) → queued (close c) ≡ queued c
  pub is_open-close : (c : Chan) → is_open (close c) ≡ false
