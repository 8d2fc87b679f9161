-- ===== src/Connection/Signals.antt =====
-- `handleOfferAnswer` and `handleIce` of webrtc_connection.cpp.
use edge_device_webrtc.Connection.Negotiation.{handle_signaling_message}
use edge_device_webrtc.Connection.State.{add_remote_candidate, Connection, called, Description}
use edge_device_webrtc.Prelude.{◌>>=◌, none, true, if◌then◌else◌, some, Bool, codes, Option, Text}
use edge_device_webrtc.Json.{JsonOps}

module _ {J : Type 0} (json : JsonOps J) (describe : Text → Text → Option Description) where
  -- `describe` is the constructor of `rtc::Description`; `none` is `std::invalid_argument`.
  unfoldable pub parse_description : Text → Option Description
  parse_description message = do
    parsed ← json.parse message
    sdp_value ← json.field parsed (codes "sdp")
    sdp ← json.get_string sdp_value
    type_value ← json.field parsed (codes "type")
    type_ ← json.get_string type_value
    describe sdp type_

  -- A message that cannot be read is dropped.
  unfoldable pub handle_offer_answer : Bool → Text → J → Connection J → Connection J
  unfolding parse_description handle_signaling_message
  handle_offer_answer throws message metadata s =
      let t = record s { peer = true } in
      elim (parse_description message) [
        | none ↦ t
        | some d ↦ handle_signaling_message json throws (some d) metadata t
      ]

  unfoldable pub parse_candidate : Text → Option (Text × Text)
  parse_candidate message = do
    parsed ← json.parse message
    candidate_value ← json.field parsed (codes "candidate")
    candidate ← json.get_string candidate_value
    mid_value ← json.field parsed (codes "sdpMid")
    mid ← json.get_string mid_value
    some (candidate, mid)

  unfoldable pub handle_ice : Text → Connection J → Connection J
  unfolding parse_candidate called
  handle_ice message s =
      if s.peer
      then elim (parse_candidate message) [
        | none ↦ s
        | some (candidate, mid) ↦ called (add_remote_candidate candidate mid) s
      ]
      else s
