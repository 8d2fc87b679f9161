-- ===== src/Signaling/Manager/Tests.antt =====
-- The theorem on media tracks for two streams, of which IAM allows one.
use edge_device_webrtc.Signaling.Manager.Granted.{connection_add-Taken, open_streams, Taken}
use edge_device_webrtc.Prelude.{refl, ◌≡◌, true, ◌∷◌, ◌==◌, some, [], Bool, Text, ℕ}
use edge_device_webrtc.Signaling.Manager.{
  new_manager, connection_add_media_tracks, Objects, Manager,
}

abbrev allows_nine : ℕ → Text → Bool
allows_nine ref action = ref == 9

-- An object is its number, and that of a stream is alive and for the connection 9.
abbrev all_alive : Objects ℕ ℕ
all_alive = record {
  lock = λ k. some k;
  is_connection = λ ref e. ref == 9;
  create_tracks = λ tracks e. true;
}

abbrev allowing : Manager
allowing = record new_manager { access = some allows_nine }

nine_added :
    connection_add_media_tracks all_alive 9 [] (open_streams ((1, 8) ∷ (2, 9) ∷ []) allowing) ≡ true
unfolding connection_add_media_tracks open_streams
nine_added = refl

connection_add-Taken_example : Taken allows_nine all_alive 9 [] ((1, 8) ∷ (2, 9) ∷ [])
connection_add-Taken_example =
    connection_add-Taken allows_nine all_alive 9 [] ((1, 8) ∷ (2, 9) ∷ []) allowing refl refl
      nine_added
