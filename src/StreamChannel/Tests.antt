-- ===== src/StreamChannel/Tests.antt =====
-- The theorem on the forwarded stream for one piece of data.
use edge_device_webrtc.StreamChannel.Forwards.{created, opens, runs, reads, Reach-forwards, Reach}
use edge_device_webrtc.Prelude.{refl, true, ◌≡◌, ◌∷◌, some, codes, ◌++◌, false, []}
use edge_device_webrtc.StreamChannel.{
  start_reading, forward, stream_read_cb, start_read, run_channel_job, stream_opened,
  opened_channel, StreamChannel,
}

abbrev one_read : StreamChannel
one_read = record opened_channel { opening = false; buffer = codes "ab"; posted = some forward }

one_read-Reach : Reach (codes "ab" ∷ []) one_read
unfolding stream_opened run_channel_job start_read stream_read_cb
one_read-Reach = reads (codes "ab") (runs start_reading (opens true created refl) refl refl) refl

Reach-forwards_example : ([] ++ codes "ab" ∷ [] ≡ codes "ab" ∷ []) × (false ≡ false)
Reach-forwards_example = Reach-forwards (codes "ab" ∷ []) one_read one_read-Reach
