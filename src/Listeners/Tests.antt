-- ===== src/Listeners/Tests.antt =====
-- The theorem on the listeners of src/library/nabto-listeners for one stream that arrives.
use edge_device_webrtc.Listeners.Handed.{Reach-handed, starts, sets, arrives, items}
use edge_device_webrtc.Listeners.{Listener, start_listener, set_callback, new_item}
use edge_device_webrtc.Prelude.{refl, ◌≡◌, some, none, true, false, [], ◌∷◌, ◌++◌, ◌&&◌, not}

abbrev listening : Listener
listening = record {
  callback = none;
  listening = true;
  me = true;
  ended = false;
  posted = [];
  handed = [];
}

is_started : start_listener true ≡ some listening
unfolding start_listener
is_started = refl

is_listening : (set_callback 1 listening).listening ≡ true
unfolding set_callback
is_listening = refl

Reach-handed_example :
    (items (new_item (some 7) (set_callback 1 listening)).handed
        ++ items (new_item (some 7) (set_callback 1 listening)).posted
      ≡ 7 ∷ [])
    × (((new_item (some 7) (set_callback 1 listening)).listening
          && not (new_item (some 7) (set_callback 1 listening)).me)
        ≡ false)
Reach-handed_example =
    Reach-handed (7 ∷ []) (new_item (some 7) (set_callback 1 listening))
      (arrives 7 (sets 1 (starts is_started)) is_listening)
