-- ===== src/Listeners.antt =====
-- The listeners for streams and CoAP requests of src/library/nabto-listeners/nabto_listeners.cpp,
-- and the calls with which a request is answered.
pub mod Handed
mod Tests
use mathlib.Core.Option
use edge_device_webrtc.Prelude.{
  ◌∷◌, true, ◌++◌, if◌then◌else◌, false, [], some, none, Text, Option, Bool, List, ℕ,
}

-- The calls of the SDK on a request, the code and the payload of a response set together with the
-- call that sends it.
pub data RequestCall : Type 0 where
  refusal : ℕ → RequestCall
  response : ℕ → Text → RequestCall
  request_free : RequestCall

-- A listener for streams or requests, which are numbers: `callback` is the number of the callback
-- that is set, `listening` whether the future is pending, `posted` the jobs on the event queue that
-- call a callback, and `handed` the calls made.
pub record Listener : Type 0 where
  pub callback : Option ℕ
  pub listening : Bool
  pub me : Bool
  pub ended : Bool
  pub posted : List (Option ℕ × ℕ)
  pub handed : List (ℕ × ℕ)

-- The constructor, and `start`, which fails where the SDK does: `create` then returns null.
unfoldable pub start_listener : Bool → Option Listener
start_listener sdk_ok =
    if sdk_ok
    then some (record {
      callback = none;
      listening = true;
      me = true;
      ended = false;
      posted = [];
      handed = [];
    })
    else none

unfoldable pub set_callback : ℕ → Listener → Listener
set_callback cb s = record s { callback = some cb }

-- `newStream` and `newCoapRequest`; an error is `none`. A copy of the callback is posted.
unfoldable pub new_item : Option ℕ → Listener → Listener
new_item (some item) s = record s { posted = s.posted ++ (s.callback, item) ∷ []; listening = true }
new_item none s = record s { listening = false; ended = true }

-- The event queue runs the first job. A callback that is not set throws: `none`.
unfoldable pub run_first : List (Option ℕ × ℕ) → Listener → Option Listener
run_first [] s = some s
run_first ((none, item) ∷ rest) s = none
run_first ((some cb, item) ∷ rest) s =
    some (record s { posted = rest; handed = s.handed ++ (cb, item) ∷ [] })

unfoldable pub run_call : Listener → Option Listener
unfolding run_first
run_call s = run_first s.posted s

-- The job that an error posts.
unfoldable pub run_end : Listener → Listener
run_end s = record s { callback = none; me = false; ended = false }
