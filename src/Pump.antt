-- ===== src/Pump.antt =====
-- The update pump (native/src/update_pump/mod.rs) and the operations of native/src/ops/updates.rs that
-- read it. The task that owns grammers' stream turns a loop: it carries out the requests that are
-- queued, polls the stream to the end, and puts what the poll reported on the handoff. tokio's
-- unbounded channels are lists, oldest first. A wait for a channel or for a timer is decided by the
-- environment: an operation takes as an argument whether the wait ran out.
pub mod Runs
pub mod Order
mod Examples
use kotlogram.Base.{ℕ, Bool, true, false, List, [], ◌∷◌, ◌++◌, Option, none, some, if◌then◌else◌}
use kotlogram.Error.{Error, Result, ok, err, no_pump, sync_busy}

-- `Handoff<T>`: the updates that wait, and whether the pump still holds the sending end.
pub record Handoff {ℓ} (T : Type ℓ) : Type ℓ where
  pub updates : List T
  pub is_closed : Bool

-- What a wait on a channel comes to.
pub data Wait {ℓ} (T : Type ℓ) : Type ℓ where
  answered : T → Wait T
  sender_gone waiting : Wait T

module _ {ℓ} {T : Type ℓ} where
  -- Handoff::pair
  unfoldable pub pair : Handoff T
  pair = record { updates = []; is_closed = false }

  -- UnboundedReceiver::recv
  unfoldable pub recv : Handoff T → Wait T × Handoff T
  recv h = elim h.updates [
    | [] ↦ (if h.is_closed then sender_gone else waiting, h)
    | update ∷ rest ↦ (answered update, record h { updates = rest })
  ]

  -- UnboundedSender::send
  unfoldable pub send : T → Handoff T → Handoff T
  send update h = record h { updates = h.updates ++ update ∷ [] }

  -- `Handoff::next`. A timer that ran out drops the receive, which has taken nothing; `none` in the
  -- first component means that the wait goes on.
  unfoldable pub next_in : Wait T × Handoff T → Option (Option T) × Handoff T
  next_in (answered update, h) = (some (some update), h)
  next_in (sender_gone, h) = (some none, h)
  next_in (waiting, h) = (none, h)

  unfoldable pub next : Bool → Handoff T → Option (Option T) × Handoff T
  next elapsed h = if elapsed then (some none, h) else next_in (recv h)

-- Where the task is in its loop.
pub data Task : Type 0 where
  between polling ended : Task

module _ (Update : Type 0) where
  -- Polled
  abbrev pub Polled : Type 0
  Polled = Result Update

  -- `UpdatePump`, with the requests that are queued by the number of their reply channel and the
  -- answers that were sent on such channels. `has_readers` says whether the handoff's receiving end
  -- is held.
  pub record UpdatePump : Type 0 where
    pub handoff : Handoff Polled
    pub has_readers : Bool
    pub commands : List ℕ
    pub replies : List (ℕ × Result (Unit {0}))
    pub task : Task

  -- UpdatePump::start
  unfoldable pub start : UpdatePump
  start = record { handoff = pair; has_readers = true; commands = []; replies = []; task = between }

  -- The task is gone, and with it the requests it had not read and the sending end.
  unfoldable pub end_task : UpdatePump → UpdatePump
  end_task p = record p {
    task = ended;
    commands = [];
    handoff = record { updates = p.handoff.updates; is_closed = true };
  }

  -- One turn of the loop over `try_recv`: `written` is what grammers answers to
  -- `sync_update_state`. With no request left the poll begins.
  unfoldable pub try_command : Result (Unit {0}) → UpdatePump → UpdatePump
  try_command written p = elim p.commands [
    | [] ↦ record p { task = polling }
    | reply ∷ rest ↦ record p { commands = rest; replies = p.replies ++ (reply, written) ∷ [] }
  ]

  -- The end of a turn of `run`: what the poll produced is sent, or the loop ends.
  unfoldable pub finish_turn : Polled → UpdatePump → UpdatePump
  finish_turn produced p =
      if p.has_readers
      then record p { handoff = send produced p.handoff; task = between }
      else end_task p

  -- The request of `UpdatePump::sync_update_state`.
  unfoldable pub request : ℕ → UpdatePump → Result (Unit {0}) × UpdatePump
  request reply p = elim p.task [
    | ended ↦ (err no_pump, p)
    | between ↦ (ok tt, record p { commands = p.commands ++ reply ∷ [] })
    | polling ↦ (ok tt, record p { commands = p.commands ++ reply ∷ [] })
  ]

  -- What that function answers once its bounded wait is over.
  unfoldable pub sync_answer : Wait (Result (Unit {0})) → Result (Unit {0})
  sync_answer (answered written) = written
  sync_answer sender_gone = err no_pump
  sync_answer waiting = err sync_busy

  -- UpdatePump::next
  unfoldable pub next_polled : Bool → UpdatePump → Option (Option Polled) × UpdatePump
  next_polled elapsed p =
      let (update, handoff) = next elapsed p.handoff in (update, record p { handoff = handoff })

  -- `next_update` and `next_raw_update`, by the projection that they apply to an update.
  unfoldable pub project_update :
      {Dto : Type 0} → (Update → Result Dto) → Option Polled → Result (Option Dto)
  project_update project none = ok none
  project_update project (some (err e)) = err e
  project_update project (some (ok update)) = elim (project update) [
    | ok dto ↦ ok (some dto)
    | err e ↦ err e
  ]
