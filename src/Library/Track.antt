-- ===== src/Library/Track.antt =====
-- Media tracks: `MediaTrackImpl` of src/library/api/media_track_impl.cpp. Callbacks are numbers.
pub mod Closed
use edge_device_webrtc.Prelude.{
  drop, ◌==◌, ◌&&◌, not, get_or, false, [], ◌∷◌, true, if◌then◌else◌, ◌++◌, some, none, Text,
  Option, Bool, List, ℕ,
}
use edge_device_webrtc.Connection.State.{ok, ErrorState}

-- The calls of libdatachannel's track and of the application's callbacks.
pub data TrackCall : Type 0 where
  set_description : Text → TrackCall
  send_data : Text → TrackCall
  call_close : ℕ → TrackCall
  call_receive : ℕ → Text → TrackCall

pub record MediaTrackImpl : Type 0 where
  pub track_id : Text
  pub sdp : Text
  pub state : ErrorState
  pub rtc_track : Bool
  pub recv_cb : Option ℕ
  pub close_cb : Option ℕ
  pub calls : List TrackCall

abbrev pub new_track : Text → Text → MediaTrackImpl
new_track track_id sdp = record {
  track_id = track_id;
  sdp = sdp;
  state = ok;
  rtc_track = false;
  recv_cb = none;
  close_cb = none;
  calls = [];
}

unfoldable pub track_called : TrackCall → MediaTrackImpl → MediaTrackImpl
track_called c s = record s { calls = s.calls ++ c ∷ [] }

-- The text without `m=` in front.
unfoldable pub without_m : Text → Text
without_m sdp = if get_or sdp 0 0 == b'm' && get_or sdp 1 0 == b'=' then drop 2 sdp else sdp

-- `valid` tells whether libdatachannel can parse a description; `none` is an exception.
unfoldable pub set_sdp : (Text → Bool) → Text → MediaTrackImpl → Option MediaTrackImpl
unfolding without_m track_called
set_sdp valid sdp s =
    let t : MediaTrackImpl = record s { sdp = without_m sdp } in
    if not s.rtc_track
    then some t
    else (if valid t.sdp then some (track_called (set_description t.sdp) t) else none)

-- `is_open` and `throws` are what libdatachannel's track answers.
unfoldable pub send_track : Bool → Bool → Text → MediaTrackImpl → MediaTrackImpl × Bool
unfolding track_called
send_track is_open throws data_ s =
    if s.rtc_track && is_open
    then (if throws then (s, false) else (track_called (send_data data_) s, true))
    else (s, false)

unfoldable pub set_track_callback : ℕ → MediaTrackImpl → MediaTrackImpl
set_track_callback cb s = record s { recv_cb = some cb }

unfoldable pub set_close_callback : ℕ → MediaTrackImpl → MediaTrackImpl
set_close_callback cb s = record s { close_cb = some cb }

unfoldable pub set_error_state : ErrorState → MediaTrackImpl → MediaTrackImpl
set_error_state e s = record s { state = e }

-- `if (closeCb_) { closeCb_(); }`
unfoldable pub call_if_set : Option ℕ → MediaTrackImpl → MediaTrackImpl
unfolding track_called
call_if_set none s = s
call_if_set (some cb) s = track_called (call_close cb) s

unfoldable pub connection_closed : MediaTrackImpl → MediaTrackImpl
unfolding call_if_set
connection_closed s = record (call_if_set s.close_cb s) { recv_cb = none; close_cb = none }

-- `sdp` is the description of the track of libdatachannel.
unfoldable pub set_rtc_track : Text → MediaTrackImpl → MediaTrackImpl
set_rtc_track sdp s = record s { rtc_track = true; sdp = sdp }

unfoldable pub receive_with : Option ℕ → Bool → Text → MediaTrackImpl → MediaTrackImpl
unfolding track_called
receive_with none binary data_ s = s
receive_with (some cb) binary data_ s = if binary then track_called (call_receive cb data_) s else s

unfoldable pub handle_track_message : Bool → Text → MediaTrackImpl → MediaTrackImpl
unfolding receive_with
handle_track_message binary data_ s = receive_with s.recv_cb binary data_ s
