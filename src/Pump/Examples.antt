-- ===== src/Pump/Examples.antt =====
-- A pump that reports one update, carries out one request and has a reader give up before it reads.
use kotlogram.Base.{ℕ, true, false, List, [], ◌∷◌, refl}
use kotlogram.Error.{Result, ok}
use kotlogram.Pump.{
  pair, recv, send, next, next_in, between, UpdatePump, start, try_command, finish_turn, request,
  next_polled,
}
use kotlogram.Pump.Runs.{
  Run, begin, carries_out, polls, asks, receives, gives_up, Reach, here, then_step,
}
use kotlogram.Pump.Order.{InOrder, pump-InOrder}

abbrev idle_pump : List ℕ → List (ℕ × Result (Unit {0})) → UpdatePump ℕ
idle_pump commands replies = record {
  handoff = pair;
  has_readers = true;
  commands = commands;
  replies = replies;
  task = between;
}

abbrev asked : Run ℕ
asked = record { pump = idle_pump (4 ∷ []) []; produced = []; delivered = []; requested = 4 ∷ [] }

abbrev written : Run ℕ
written = record {
  pump = idle_pump [] ((4, ok tt) ∷ []);
  produced = [];
  delivered = [];
  requested = 4 ∷ [];
}

reaches_asked : Reach ℕ (begin ℕ) asked
unfolding start pair request
reaches_asked = then_step here (asks 4 (idle_pump (4 ∷ []) []) refl)

reaches_written : Reach ℕ (begin ℕ) written
unfolding try_command
reaches_written = then_step reaches_asked (carries_out (ok tt) refl)

abbrev gave_up : Run ℕ
gave_up = written

reaches_gave_up : Reach ℕ (begin ℕ) gave_up
unfolding next_polled next
reaches_gave_up = then_step reaches_written (gives_up true written.pump refl)

abbrev polled_pump : List (Result ℕ) → UpdatePump ℕ
polled_pump updates = record {
  handoff = record { updates = updates; is_closed = false };
  has_readers = true;
  commands = [];
  replies = (4, ok tt) ∷ [];
  task = between;
}

abbrev delivered_one : Run ℕ
delivered_one = record {
  pump = polled_pump [];
  produced = ok 7 ∷ [];
  delivered = ok 7 ∷ [];
  requested = 4 ∷ [];
}

reaches_delivered : Reach ℕ (begin ℕ) delivered_one
unfolding try_command finish_turn send pair next_polled next next_in recv
reaches_delivered =
    then_step (then_step (then_step reaches_gave_up (carries_out (ok tt) refl)) (polls (ok 7) refl))
      (receives false (ok 7) (polled_pump []) refl refl)

pump-InOrder_example : InOrder ℕ delivered_one
pump-InOrder_example = pump-InOrder ℕ reaches_delivered
