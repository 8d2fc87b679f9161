-- ===== src/Rtsp/Stream/Tests.antt =====
-- The theorem on ports for two connections.
use edge_device_webrtc.Rtsp.Stream.Ports.{adds, created, next, Reach-ports}
use edge_device_webrtc.Prelude.{
  refl, ◌≡◌, ◌≤◌, find_key, arith, text_eq, ◌≢◌, ◌^◌, ◌%◌, some, none, codes, ◌+◌,
}
use edge_device_webrtc.Rtsp.Stream.{
  port_of, set_track, fresh_client, create_client, store_track, new_stream, ensure_client,
  add_connection, RtspConnection, RtspStream,
}

abbrev one_client : RtspStream
one_client = add_connection 1 (codes "cam-video") 7 (new_stream (codes "cam"))

abbrev two_clients : RtspStream
two_clients = add_connection 2 (codes "cam-audio") 8 one_client

abbrev first_client : RtspConnection
first_client = record { video_track = some 7; audio_track = none; client = 0; port = 42222 }

abbrev second_client : RtspConnection
second_client = record { video_track = none; audio_track = some 8; client = 1; port = 42226 }

first_client_found : find_key 1 two_clients.connections ≡ some first_client
unfolding add_connection ensure_client store_track create_client fresh_client set_track port_of
    text_eq
first_client_found = refl

second_client_found : find_key 2 two_clients.connections ≡ some second_client
unfolding add_connection ensure_client store_track create_client fresh_client set_track port_of
    text_eq
second_client_found = refl

two_counted : two_clients.counter ≤ 2 ^ 14
unfolding add_connection ensure_client store_track create_client fresh_client set_track port_of
    text_eq
two_counted = omega arith

Reach-ports_example : (42222 + 3) % 2 ^ 16 ≢ (42226 + 0) % 2 ^ 16
Reach-ports_example =
    Reach-ports (codes "cam") two_clients 1 2 3 0 first_client second_client
      (next (next created (adds 1 (codes "cam-video") 7)) (adds 2 (codes "cam-audio") 8))
      two_counted (λ e. omega (arith, e)) first_client_found second_client_found (omega arith)
      (omega arith)
