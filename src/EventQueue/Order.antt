-- ===== src/EventQueue/Order.antt =====
-- In which order src/modules/event-queue runs its events.
use edge_device_webrtc.Prelude.{
  ap, ◌∙◌, inr, ◌∷◌, inl, append_assoc, append-nil, sym, arith, List-cases, List, [], length, ltb,
  not, ◌&&◌, refl, is_empty, ◌||◌, false, ◌≡◌, ◌<◌, ◌++◌, ℕ,
}
use edge_device_webrtc.EventQueue.{
  pop, rounds, remove_work, run_round, new_queue, add_work, post, EventQueue,
}

-- The steps of the threads that post events and hold work, and of the runner, in any order.
pub data Step (q : EventQueue) : EventQueue → Type 0 where
  posts : (e : ℕ) → Step q (post e q)
  adds : Step q (add_work q)
  removes : 0 < q.work_count → Step q (remove_work q)
  runs : q.returned ≡ false → Step q (run_round q)

pub data Reach : EventQueue → Type 0 where
  created : Reach new_queue
  next : {q r : EventQueue} → Reach q → Step q r → Reach r

-- The events in the order of their posts are those that ran, then those that wait.
abbrev pub InOrder : EventQueue → Type 0
InOrder q = q.executed ++ q.events ≡ q.posted

run_round-InOrder : (q : EventQueue) → InOrder q → InOrder (run_round q)
unfolding run_round
run_round-InOrder q h = elim (List-cases q.events) [
  | inl e ↦ ground arith
  | inr (x, xs, e) ↦ ground (arith, append_assoc q.executed (x ∷ []) xs)
]

Step-InOrder : {q r : EventQueue} → Step q r → InOrder q → InOrder r
unfolding post add_work remove_work
Step-InOrder {q} (posts e) h =
    sym (append_assoc q.executed q.events (e ∷ [])) ∙ ap (λ l. l ++ e ∷ []) h
Step-InOrder {q} adds h = h
Step-InOrder {q} (removes _) h = h
Step-InOrder {q} (runs _) h = run_round-InOrder q h

-- Events run once each and in the order in which they were posted, whichever thread posts them and
-- however the threads take turns: those that have run are a prefix of those posted, and the rest of
-- these wait in the queue.
pub Reach-InOrder : {q : EventQueue} → Reach q → InOrder q
Reach-InOrder created = refl
Reach-InOrder (next reached step) = Step-InOrder step (Reach-InOrder reached)

run_round-returned :
    (q : EventQueue)
    → (run_round q).returned ≡ (q.returned || (is_empty q.events && not (ltb 0 q.work_count)))
unfolding run_round
run_round-returned q = ground arith

run_round-event :
    (e : ℕ) (es : List ℕ) (q : EventQueue)
    → q.events ≡ e ∷ es
    → run_round q ≡ record q { events = es; executed = q.executed ++ e ∷ [] }
unfolding run_round
run_round-event e es q h = rw (h, run_round, pop) refl

rounds-events : (es : List ℕ) (q : EventQueue) → q.events ≡ es → (rounds (length es) q).events ≡ []
unfolding rounds
rounds-events [] q h = h
rounds-events (e ∷ es) q h =
    rw (run_round-event e es q h, rounds)
      (rounds-events es (record q { events = es; executed = q.executed ++ e ∷ [] }) refl)

rounds-executed :
    (es : List ℕ) (q : EventQueue)
    → q.events ≡ es
    → (rounds (length es) q).executed ≡ q.executed ++ es
unfolding rounds
rounds-executed [] q h = sym (append-nil q.executed)
rounds-executed (e ∷ es) q h =
    rw (run_round-event e es q h, rounds)
      (rounds-executed es (record q { events = es; executed = q.executed ++ e ∷ [] }) refl
        ∙ append_assoc q.executed (e ∷ []) es)

-- The runner returns in a round where no event waits and no work is held, and in no other; a queue
-- of n events is run empty in n rounds.
rounds_drain :
    (q : EventQueue)
    → ((run_round q).returned ≡ (q.returned || (is_empty q.events && not (ltb 0 q.work_count))))
      × ((rounds (length q.events) q).events ≡ [])
      × ((rounds (length q.events) q).executed ≡ q.executed ++ q.events)
rounds_drain q =
    (run_round-returned q, rounds-events q.events q refl, rounds-executed q.events q refl)
