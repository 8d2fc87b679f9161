-- ===== src/Demo/FileStream/Tests.antt =====
-- The theorems on the file stream for a short file.
use edge_device_webrtc.Demo.FileStream.Live.{opens, created, next, Reach-Serves}
use edge_device_webrtc.Demo.FileStream.Invariant.{Serves}
use edge_device_webrtc.Demo.FileStream.Sent.{serve-sends_file, data_of}
use edge_device_webrtc.Demo.FileStream.Closed.{closed_stream_refuses, open_all}
use edge_device_webrtc.Prelude.{
  refl, arith, false, [], ◌≡◌, ◌∷◌, ◌&&◌, codes, true, some, is_some, Text, Option, ℕ,
}
use edge_device_webrtc.Demo.FileStream.{
  closing, accepting, complete, serve, on_stream, new_app, FileApp,
}

abbrev short_file : Option Text
short_file = some (codes "abc")

-- The state once the first stream was allowed.
abbrev taken : FileApp
taken = record new_app { file_stream = some 0; me = true; pending = some accepting; opened = 1 }

abbrev at_end : FileApp
at_end = record new_app { file_stream = some 0; me = true; pending = some closing; opened = 1 }

serve-sends_file_example :
    ((serve short_file 2 (complete true taken)).freed ≡ some 0 ∷ [])
    × (data_of 0 (serve short_file 2 (complete true taken)).written ≡ codes "abc")
serve-sends_file_example =
    serve-sends_file short_file 1 0 (codes "abc") taken refl refl refl (omega arith)

closed_stream_refuses_example :
    ((open_all (true ∷ false ∷ []) (complete true at_end)).file_stream ≡ some 0)
    × ((open_all (true ∷ false ∷ []) (complete true at_end)).written ≡ [])
    × ((open_all (true ∷ false ∷ []) (complete true at_end)).freed ≡ some 0 ∷ some 1 ∷ some 2 ∷ [])
closed_stream_refuses_example = closed_stream_refuses 0 (true ∷ false ∷ []) at_end refl refl

Reach-Serves_example :
    ((is_some (on_stream true new_app).pending && is_some (on_stream true new_app).posted) ≡ false)
    × ((k : ℕ) × Serves k (on_stream true new_app))
unfolding on_stream
Reach-Serves_example =
    Reach-Serves short_file (on_stream true new_app) (next created (opens true)) refl
