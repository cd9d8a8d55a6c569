-- ===== src/Pump/Order.antt =====
-- What the pump's polls reported reaches the readers, in order.
use kotlogram.Base.{
  ℕ, Bool, true, false, List, [], ◌∷◌, ◌++◌, map, ◌≡◌, ◌⊎◌, inl, inr, refl, sym, ap, ◌∙◌,
  append_assoc, append-nil, map-append, Option, none, some, Bool-cases, arith,
}
use kotlogram.Error.{Result, ok}
use kotlogram.Pump.{
  Handoff, pair, recv, send, next_in, next, Task, between, polling, ended, Polled, UpdatePump,
  start, end_task, try_command, finish_turn, request, next_polled,
}
use kotlogram.Pump.Runs.{
  Run, begin, Step, carries_out, polls, asks, receives, gives_up, aborts, leaves, Reach, here,
  then_step,
}

-- A wait that answers an update takes the oldest off the handoff, and one that answers none, because
-- the time ran out or the pump ended, takes nothing.
module _ {ℓ} {T : Type ℓ} where
  next-received :
      (elapsed : Bool) (h h' : Handoff T) (x : T)
      → next elapsed h ≡ (some (some x), h')
      → h.updates ≡ x ∷ h'.updates
  unfolding next next_in recv
  next-received elapsed h h' x e = ground arith

  next-none :
      (elapsed : Bool) (h h' : Handoff T)
      → next elapsed h ≡ (some none, h')
      → h'.updates ≡ h.updates
  unfolding next next_in recv
  next-none elapsed h h' e = ground arith

module _ (Update : Type 0) where
  -- `lost` is what polls reported after the last reader was gone, and `dropped` the requests that the
  -- task had not read when it ended.
  pub record InOrder (r : Run Update) : Type 0 where
    pub lost : List (Polled Update)
    pub dropped : List ℕ
    pub updates : (r.delivered ++ r.pump.handoff.updates) ++ lost ≡ r.produced
    pub only_unread : (lost ≡ []) ⊎ (r.pump.has_readers ≡ false)
    pub requests :
        (map (λ reply. reply.0) r.pump.replies ++ r.pump.commands) ++ dropped ≡ r.requested
    pub only_ended : (dropped ≡ []) ⊎ (r.pump.task ≡ ended)

  begin-InOrder : InOrder (begin Update)
  unfolding start pair
  begin-InOrder = record {
    lost = [];
    dropped = [];
    updates = refl;
    only_unread = inl refl;
    requests = refl;
    only_ended = inl refl;
  }

  -- The requests as a pump holds them, on the channels or not yet read.
  abbrev known : UpdatePump Update → List ℕ
  known p = map (λ reply. reply.0) p.replies ++ p.commands

  try_command-known :
      (written : Result (Unit {0})) (p : UpdatePump Update)
      → (known (try_command Update written p) ≡ known p)
        × ((try_command Update written p).handoff ≡ p.handoff)
        × ((try_command Update written p).has_readers ≡ p.has_readers)
  unfolding try_command
  try_command-known written p = go p.commands refl
    where
      go :
          (commands : List ℕ)
          → p.commands ≡ commands
          → (known (try_command Update written p) ≡ known p)
            × ((try_command Update written p).handoff ≡ p.handoff)
            × ((try_command Update written p).has_readers ≡ p.has_readers)
      go [] e = rw e (refl, refl, refl)
      go (reply ∷ rest) e = rw e (rw (map-append, append_assoc), refl, refl)

  -- A task that has not ended has dropped nothing, and while there are readers nothing is lost.
  none_dropped :
      {r : Run Update} (v : InOrder r) (task : Task)
      → r.pump.task ≡ task
      → ((task ≡ between) ⊎ (task ≡ polling))
      → v.dropped ≡ []
  none_dropped v task e h = elim v.only_ended [
    | inl nothing ↦ nothing
    | inr over ↦ absurd (elim h [ inl b ↦ cc | inr q ↦ cc ])
  ]

  none_lost : {r : Run Update} (v : InOrder r) → r.pump.has_readers ≡ true → v.lost ≡ []
  none_lost v h = elim v.only_unread [ inl nothing ↦ nothing | inr gone ↦ cc ]

  end_task-InOrder :
      (r : Run Update) → InOrder r → InOrder (record r { pump = end_task Update r.pump })
  unfolding end_task
  end_task-InOrder r v = record {
    lost = v.lost;
    dropped = r.pump.commands ++ v.dropped;
    updates = v.updates;
    only_unread = v.only_unread;
    requests = rw (append-nil, ← append_assoc) v.requests;
    only_ended = inr refl;
  }

  carries_out-InOrder :
      (r : Run Update) (written : Result (Unit {0}))
      → r.pump.task ≡ between
      → InOrder r
      → InOrder (record r { pump = try_command Update written r.pump })
  carries_out-InOrder r written h v =
      let (same, handoff, readers) = try_command-known written r.pump in
      record {
        lost = v.lost;
        dropped = v.dropped;
        updates = rw handoff v.updates;
        only_unread = rw readers v.only_unread;
        requests = rw same v.requests;
        only_ended = inl (none_dropped v between h (inl refl));
      }

  polls-InOrder :
      (r : Run Update) (x : Polled Update)
      → r.pump.task ≡ polling
      → InOrder r
      → InOrder (record {
        pump = finish_turn Update x r.pump;
        produced = r.produced ++ x ∷ [];
        delivered = r.delivered;
        requested = r.requested;
      })
  unfolding finish_turn send end_task
  polls-InOrder r x h v = elim (Bool-cases r.pump.has_readers) [
    | inl reading ↦
        let kept : r.delivered ++ r.pump.handoff.updates ≡ r.produced =
          sym (append-nil (r.delivered ++ r.pump.handoff.updates))
          ∙ rw (none_lost v reading) at v.updates in
        record {
          lost = [];
          dropped = v.dropped;
          updates = rw (reading, append-nil, ← append_assoc, kept);
          only_unread = inl refl;
          requests = rw reading v.requests;
          only_ended = inl (none_dropped v polling h (inr refl));
        }
    | inr gone ↦ record {
      lost = v.lost ++ x ∷ [];
      dropped = r.pump.commands ++ v.dropped;
      updates = rw gone (rw (← append_assoc, v.updates));
      only_unread = inr (rw gone);
      requests = rw (gone, append-nil, ← append_assoc) v.requests;
      only_ended = inr (rw gone);
    }
  ]

  request-cases :
      (reply : ℕ) (p p' : UpdatePump Update)
      → request Update reply p ≡ (ok tt, p')
      → ((p.task ≡ between) ⊎ (p.task ≡ polling))
        × (p'.handoff ≡ p.handoff)
        × (p'.has_readers ≡ p.has_readers)
        × (known p' ≡ known p ++ reply ∷ [])
  unfolding request
  request-cases reply p p' h = (
    ground arith,
    ground arith,
    ground arith,
    ground (arith, append_assoc (map (λ answer. answer.0) p.replies) p.commands (reply ∷ [])),
  )

  next_polled-cases :
      (elapsed : Bool) (p p' : UpdatePump Update) (o : Option (Polled Update))
      → next_polled Update elapsed p ≡ (some o, p')
      → (next elapsed p.handoff ≡ (some o, p'.handoff)) × (p' ≡ record p { handoff = p'.handoff })
  unfolding next_polled
  next_polled-cases elapsed p p' o h =
      let update : (next elapsed p.handoff).0 ≡ some o = ap (λ result. result.0) h in
      let pump : record p { handoff = (next elapsed p.handoff).1 } ≡ p' =
        ap (λ result. result.1) h in
      let handoff : (next elapsed p.handoff).1 ≡ p'.handoff =
        ap (λ (q : UpdatePump Update). q.handoff) pump in
      (rw (← update, ← handoff), sym (rw handoff at pump))

  Step-InOrder : {r s : Run Update} → Step Update r s → InOrder r → InOrder s
  Step-InOrder {r} (carries_out written h) v = carries_out-InOrder r written h v
  Step-InOrder {r} (polls x h) v = polls-InOrder r x h v
  Step-InOrder {r} (asks reply p h) v =
      let (live, handoff, readers, more) = request-cases reply r.pump p h in
      let nothing : v.dropped ≡ [] = none_dropped v r.pump.task refl live in
      let whole : known r.pump ≡ r.requested =
        sym (append-nil (known r.pump)) ∙ rw nothing at v.requests in
      record {
        lost = v.lost;
        dropped = [];
        updates = rw handoff v.updates;
        only_unread = rw readers v.only_unread;
        requests = rw (append-nil, more, whole);
        only_ended = inl refl;
      }
  Step-InOrder {r} (receives elapsed x p unread h) v =
      let (taken, same) = next_polled-cases elapsed r.pump p (some x) h in
      let oldest = next-received elapsed r.pump.handoff p.handoff x taken in
      record {
        lost = v.lost;
        dropped = v.dropped;
        updates = rw (append_assoc r.delivered (x ∷ []) p.handoff.updates) (rw oldest at v.updates);
        only_unread = rw same v.only_unread;
        requests = rw same v.requests;
        only_ended = rw same v.only_ended;
      }
  Step-InOrder {r} (gives_up elapsed p h) v =
      let (taken, same) = next_polled-cases elapsed r.pump p none h in
      let kept = next-none elapsed r.pump.handoff p.handoff taken in
      record {
        lost = v.lost;
        dropped = v.dropped;
        updates = rw kept v.updates;
        only_unread = rw same v.only_unread;
        requests = rw same v.requests;
        only_ended = rw same v.only_ended;
      }
  Step-InOrder {r} aborts v = end_task-InOrder r v
  Step-InOrder {r} leaves v = record {
    lost = v.lost;
    dropped = v.dropped;
    updates = v.updates;
    only_unread = inr refl;
    requests = v.requests;
    only_ended = v.only_ended;
  }

  Reach-InOrder : {r s : Run Update} → InOrder r → Reach Update r s → InOrder s
  Reach-InOrder v here = v
  Reach-InOrder v (then_step reached step) = Step-InOrder step (Reach-InOrder v reached)

  -- However polls, reads whose wait runs out, requests and the end of the task interleave: the updates
  -- that readers were given, then those on the handoff, are what the polls reported, in order, and
  -- nothing is lost while there are readers. The requests that were accepted are those answered, then
  -- those not yet read, in order and each once, and none is dropped unless the task has ended.
  pub pump-InOrder : {r : Run Update} → Reach Update (begin Update) r → InOrder r
  pump-InOrder reached = Reach-InOrder begin-InOrder reached
