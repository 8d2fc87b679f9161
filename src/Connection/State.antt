-- ===== src/Connection/State.antt =====
-- The state of `WebrtcConnection` (src/library/webrtc-connection/webrtc_connection.hpp) and the calls
-- that it makes.
use edge_device_webrtc.Prelude.{[], ◌∷◌, ℕ, List, ◌++◌, Text, Bool}

-- `rtc::Description::Type`; the code asks for offers and answers.
pub data DescriptionType : Type 0 where
  offer answer other_type : DescriptionType

pub record Description : Type 0 where
  pub type_ : DescriptionType
  pub type_string : Text
  pub sdp : Text

pub data ErrorState : Type 0 where
  ok access_denied unknown_track_id invalid_codecs unknown_error : ErrorState

-- `MediaTrack`, with the mid that is parsed from its SDP, and whether `rtcTrack_` is set.
pub record MediaTrack : Type 0 where
  pub mid : Text
  pub track_id : Text
  pub error : ErrorState
  pub rtc_track : Bool

pub data ConnectionState : Type 0 where
  created connecting connected closed failed : ConnectionState

-- The calls that leave the object: of the peer connection, the signaling stream, the event handler
-- of the application, and the objects that it owns.
pub data Call (J : Type 0) : Type 0 where
  set_remote_description : Description → Call J
  set_local_description peer_close : Call J
  send_offer send_answer send_ice : Text → J → Call J
  add_remote_candidate : Text → Text → Call J
  add_track : MediaTrack → Call J
  listen : MediaTrack → Call J
  event : ConnectionState → Call J
  track_closed : MediaTrack → Call J
  channel_closed : ℕ → Call J

-- `peer` is whether `pc_` is set, `stable` whether its signaling state is, and `negotiation_needed`
-- what it answers; `handler` is whether `eventHandler_` is set. `streamChannel_` is set by a data
-- channel for a stream, and stays set when the connection closes.
pub record Connection (J : Type 0) : Type 0 where
  pub state : ConnectionState
  pub peer : Bool
  pub stable : Bool
  pub negotiation_needed : Bool
  pub polite : Bool
  pub making_offer : Bool
  pub ignore_offer : Bool
  pub can_trickle : Bool
  pub metadata : J
  pub media_tracks : List MediaTrack
  pub datachannels : List ℕ
  pub coap_channel : Bool
  pub stream_channel : Bool
  pub handler : Bool
  pub calls : List (Call J)

unfoldable pub called : {J : Type 0} → Call J → Connection J → Connection J
called c s = record s { calls = s.calls ++ c ∷ [] }
