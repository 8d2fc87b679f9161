-- ===== src/Rtsp/Stream.antt =====
-- `RtspStream` of src/modules/rtsp-client/rtsp_stream.{hpp,cpp}: one RTSP client for each
-- connection. A media track and a connection are numbers.
pub mod Ports
mod Tests
use edge_device_webrtc.Prelude.{
  false, ◌^◌, ◌==◌, ◌||◌, ◌%◌, not, ◌∷◌, ◌*◌, text_eq, put_key, is_none, erase_key, codes, ◌+◌,
  ◌++◌, some, none, if◌then◌else◌, find_key, [], Bool, Text, ℕ, List, Option,
}

-- `client` is the number of the client, by the order of their creation, and `port` its port.
pub record RtspConnection : Type 0 where
  pub video_track : Option ℕ
  pub audio_track : Option ℕ
  pub client : ℕ
  pub port : ℕ

-- The calls of the RTSP clients.
pub data ClientCall : Type 0 where
  start_client stop_client : ℕ → ClientCall
  client_add : ℕ → ℕ → Option ℕ → Option ℕ → ClientCall
  client_remove : ℕ → ℕ → ClientCall

pub record RtspStream : Type 0 where
  pub track_id_base : Text
  pub counter : ℕ
  pub connections : List (ℕ × RtspConnection)
  pub calls : List ClientCall

abbrev pub new_stream : Text → RtspStream
new_stream base = record { track_id_base = base; counter = 0; connections = []; calls = [] }

abbrev pub audio_id : RtspStream → Text
audio_id s = s.track_id_base ++ codes "-audio"

abbrev pub video_id : RtspStream → Text
video_id s = s.track_id_base ++ codes "-video"

unfoldable pub is_track : Text → RtspStream → Bool
is_track id s = text_eq (audio_id s) id || text_eq (video_id s) id

-- `audio` and `video` are what the negotiators match; 0 is no payload type.
unfoldable pub match_media : ℕ → ℕ → Text → RtspStream → Bool
match_media audio video id s =
    if text_eq id (audio_id s)
    then not (audio == 0)
    else (if text_eq id (video_id s) then not (video == 0) else false)

-- `42222 + counter_ * 4`, as the `uint16_t` that it is passed as.
unfoldable pub port_of : ℕ → ℕ
port_of counter = (42222 + counter * 4) % 2 ^ 16

-- The client of a connection that is new, and then its start.
unfoldable pub fresh_client : RtspStream → RtspConnection
unfolding port_of
fresh_client s = record {
  video_track = none;
  audio_track = none;
  client = s.counter;
  port = port_of s.counter;
}

unfoldable pub create_client : ℕ → RtspStream → RtspStream
unfolding fresh_client
create_client ref s = record s {
  connections = put_key ref (fresh_client s) s.connections;
  counter = s.counter + 1;
  calls = s.calls ++ start_client s.counter ∷ [];
}

-- The client that a connection has or gets.
unfoldable pub ensure_client : ℕ → RtspStream → RtspStream
unfolding create_client
ensure_client ref s = if is_none (find_key ref s.connections) then create_client ref s else s

unfoldable pub set_track : Text → ℕ → RtspStream → RtspConnection → RtspConnection
set_track id media s c =
    if text_eq id (audio_id s)
    then record c { audio_track = some media }
    else (if text_eq id (video_id s) then record c { video_track = some media } else c)

unfoldable pub store_track : ℕ → Text → ℕ → RtspStream → RtspStream
unfolding set_track
store_track ref id media s = elim (find_key ref s.connections) [
  | none ↦ s
  | some c ↦ record s { connections = put_key ref (set_track id media s c) s.connections }
]

unfoldable pub add_connection : ℕ → Text → ℕ → RtspStream → RtspStream
unfolding ensure_client store_track
add_connection ref id media s = store_track ref id media (ensure_client ref s)

-- The callback of `start`, when the client reports how it went.
unfoldable pub start_callback : ℕ → Option Text → RtspStream → RtspStream
start_callback ref (some error) s = s
start_callback ref none s = elim (find_key ref s.connections) [
  | none ↦ s
  | some c ↦ record s {
    calls = s.calls ++ client_add c.client ref c.video_track c.audio_track ∷ [];
  }
]

unfoldable pub remove_connection : ℕ → RtspStream → RtspStream
remove_connection ref s = elim (find_key ref s.connections) [
  | none ↦ s
  | some c ↦ record s {
    connections = erase_key ref s.connections;
    calls = s.calls ++ client_remove c.client ref ∷ stop_client c.client ∷ [];
  }
]

abbrev stops : List (ℕ × RtspConnection) → List ClientCall
stops [] = []
stops ((ref, c) ∷ cs) = stop_client c.client ∷ stops cs

unfoldable pub stop : RtspStream → RtspStream
stop s = record s { connections = []; calls = s.calls ++ stops s.connections }
