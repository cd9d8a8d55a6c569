-- ===== src/Pump/Runs.antt =====
-- Runs of a pump with its readers and its requests, in any order.
use kotlogram.Base.{ℕ, Bool, true, false, List, [], ◌∷◌, ◌++◌, ◌≡◌, none, some}
use kotlogram.Error.{Result, ok}
use kotlogram.Pump.{
  between, polling, Polled, UpdatePump, start, end_task, try_command, finish_turn, request,
  next_polled,
}

module _ (Update : Type 0) where
  -- A pump, with what its polls reported, what readers were given, and the requests it accepted.
  pub record Run : Type 0 where
    pub pump : UpdatePump Update
    pub produced : List (Polled Update)
    pub delivered : List (Polled Update)
    pub requested : List ℕ

  abbrev pub begin : Run
  begin = record { pump = start Update; produced = []; delivered = []; requested = [] }

  pub data Step (r : Run) : Run → Type 0 where
    carries_out :
        (written : Result (Unit {0}))
        → r.pump.task ≡ between
        → Step r (record r { pump = try_command Update written r.pump })
    polls :
        (x : Polled Update)
        → r.pump.task ≡ polling
        → Step r (record {
          pump = finish_turn Update x r.pump;
          produced = r.produced ++ x ∷ [];
          delivered = r.delivered;
          requested = r.requested;
        })
    asks :
        (reply : ℕ) (p : UpdatePump Update)
        → request Update reply r.pump ≡ (ok tt, p)
        → Step r (record {
          pump = p;
          produced = r.produced;
          delivered = r.delivered;
          requested = r.requested ++ reply ∷ [];
        })
    receives :
        (elapsed : Bool) (x : Polled Update) (p : UpdatePump Update)
        → r.pump.has_readers ≡ true
        → next_polled Update elapsed r.pump ≡ (some (some x), p)
        → Step r (record {
          pump = p;
          produced = r.produced;
          delivered = r.delivered ++ x ∷ [];
          requested = r.requested;
        })
    gives_up :
        (elapsed : Bool) (p : UpdatePump Update)
        → next_polled Update elapsed r.pump ≡ (some none, p)
        → Step r (record r { pump = p })
    aborts : Step r (record r { pump = end_task Update r.pump })
    leaves : Step r (record r {
      pump = record {
        handoff = r.pump.handoff;
        has_readers = false;
        commands = r.pump.commands;
        replies = r.pump.replies;
        task = r.pump.task;
      };
    })

  pub data Reach (r : Run) : Run → Type 0 where
    here : Reach r r
    then_step : {s t : Run} → Reach r s → Step s t → Reach r t
