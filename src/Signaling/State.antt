-- ===== src/Signaling/State.antt =====
-- The state of src/library/signaling-stream/signaling_stream.{hpp,cpp}, and the calls that it makes.
use edge_device_webrtc.Prelude.{ℕ, Bool, false, Option, none, List, [], Text}

-- `enum ObjectType`.
pub data ObjectType : Type 0 where
  webrtc_offer webrtc_answer webrtc_ice turn_request turn_response : ObjectType

abbrev pub object_code : ObjectType → ℕ
object_code webrtc_offer = 0
object_code webrtc_answer = 1
object_code webrtc_ice = 2
object_code turn_request = 3
object_code turn_response = 4

-- `NabtoDeviceError`, as far as the handlers tell codes apart.
pub data ErrorCode : Type 0 where
  ec_ok ec_eof ec_failed : ErrorCode

-- `WebrtcConnection::TurnServer`.
pub record TurnServer : Type 0 where
  pub urls : List Text
  pub username : Text
  pub credential : Text

-- What `future_` is waiting for; accept and the two reads share that future.
pub data Waiting : Type 0 where
  accept read_length read_object : Waiting

-- Calls of the SDK and of the WebRTC connection, in the order in which they are made.
pub data Call (J : Type 0) : Type 0 where
  ice_request stream_accept stream_close connection_stop : Call J
  stream_read : ℕ → Call J
  stream_write : Text → Call J
  connection_create : List TurnServer → Call J
  handle_offer_answer : Text → J → Call J
  handle_ice : Text → Call J
  create_tracks : List ℕ → Call J

-- The members of `SignalingStream`. `webrtc_connection` and `self` say whether the pointer is set;
-- a `MediaTrackPtr` is a number. The last group are the futures that the SDK has not resolved yet,
-- each with a callback that holds the raw `this`, and whether one was armed while it was pending.
pub record Stream (J : Type 0) : Type 0 where
  pub read_len : ℕ
  pub object_length : ℕ
  pub object_buffer : Option Text
  pub accepted : Bool
  pub closed : Bool
  pub closing : Bool
  pub reading : Bool
  pub write_buf : Option Text
  pub write_buffers : List Text
  pub turn_servers : List TurnServer
  pub webrtc_connection : Bool
  pub self : Bool
  pub deferred_tracks : List ℕ
  pub calls : List (Call J)
  pub future : Option Waiting
  pub write_future : Bool
  pub close_future : Bool
  pub ice_future : Bool
  pub misused : Bool

-- A stream as the constructor leaves it.
abbrev pub new_stream : {J : Type 0} → Stream J
new_stream = record {
  read_len = 0;
  object_length = 0;
  object_buffer = none;
  accepted = false;
  closed = false;
  closing = false;
  reading = false;
  write_buf = none;
  write_buffers = [];
  turn_servers = [];
  webrtc_connection = false;
  self = false;
  deferred_tracks = [];
  calls = [];
  future = none;
  write_future = false;
  close_future = false;
  ice_future = false;
  misused = false;
}
