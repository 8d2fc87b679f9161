-- ===== src/EventQueue.antt =====
-- `EventQueueImpl` of src/modules/event-queue/event_queue_impl.{hpp,cpp}. An event is a number; what
-- it does when it runs are further steps.
pub mod Order
mod Tests
use edge_device_webrtc.Prelude.{
  ltb, zero, true, if◌then◌else◌, ◌∷◌, suc, false, Bool, ◌-◌, ◌+◌, ◌++◌, ℕ, [], List,
}

-- `executed`, `posted` and `returned` are the history: the events that `eventRunner` has called, those
-- that `post` has got, and whether `run` has returned. `work_count` is an `int`, which no caller
-- takes below zero, since `EventQueueWork` adds before it removes.
pub record EventQueue : Type 0 where
  pub events : List ℕ
  pub work_count : ℕ
  pub executed : List ℕ
  pub posted : List ℕ
  pub returned : Bool

abbrev pub new_queue : EventQueue
new_queue = record { events = []; work_count = 0; executed = []; posted = []; returned = false }

unfoldable pub post : ℕ → EventQueue → EventQueue
post event q = record q { events = q.events ++ event ∷ []; posted = q.posted ++ event ∷ [] }

unfoldable pub add_work : EventQueue → EventQueue
add_work q = record q { work_count = q.work_count + 1 }

unfoldable pub remove_work : EventQueue → EventQueue
remove_work q = record q { work_count = q.work_count - 1 }

-- How `pop` leaves its loop, or that it waits on the condition; the wait ends with a notification
-- from `post` or `remove_work`, and the loop begins again.
pub data Popped : Type 0 where
  event : ℕ → EventQueue → Popped
  no_event waiting : Popped

unfoldable pub pop : EventQueue → Popped
pop q = elim q.events [
  | first ∷ rest ↦ event first (record q { events = rest })
  | [] ↦ if ltb 0 q.work_count then waiting else no_event
]

-- One round of `eventRunner`.
unfoldable pub run_round : EventQueue → EventQueue
unfolding pop
run_round q = elim (pop q) [
  | event e rest ↦ record rest { executed = rest.executed ++ e ∷ [] }
  | no_event ↦ record q { returned = true }
  | waiting ↦ q
]

-- The rounds of `eventRunner` while nothing else happens.
unfoldable pub rounds : ℕ → EventQueue → EventQueue
unfolding run_round
rounds zero q = q
rounds (suc n) q = rounds n (run_round q)
