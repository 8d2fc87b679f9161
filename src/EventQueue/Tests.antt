-- ===== src/EventQueue/Tests.antt =====
-- The theorems on src/modules/event-queue at concrete inputs.
use edge_device_webrtc.Prelude.{refl, false, ◌≡◌}
use edge_device_webrtc.EventQueue.Order.{runs, posts, created, next, Reach-InOrder, InOrder}
use edge_device_webrtc.EventQueue.{new_queue, run_round, post}

still_runs : (post 2 (post 5 new_queue)).returned ≡ false
unfolding post
still_runs = refl

Reach-InOrder_example : InOrder (run_round (post 2 (post 5 new_queue)))
Reach-InOrder_example =
    Reach-InOrder (next (next (next created (posts 5)) (posts 2)) (runs still_runs))
