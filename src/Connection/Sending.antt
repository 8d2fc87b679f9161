-- ===== src/Connection/Sending.antt =====
-- What the connection sends on the signaling stream: `sendDescription`, `handleSignalingStateChange`
-- and the callbacks for candidates and for gathering of webrtc_connection.cpp.
pub mod Answer
use edge_device_webrtc.Prelude.{
  ◌>>=◌, ◌||◌, [], ◌∷◌, ◌&&◌, not, none, some, if◌then◌else◌, codes, Text, Bool, Option,
}
use edge_device_webrtc.Connection.State.{
  other_type, send_ice, answer, send_answer, set_local_description, send_offer, offer, Connection,
  called, Description,
}
use edge_device_webrtc.Connection.Metadata.{update_meta_tracks}
use edge_device_webrtc.Json.{JsonOps}
use mathlib.Core.Option

pub data SignalingState : Type 0 where
  have_local_offer have_remote_offer other_state : SignalingState

module _ {J : Type 0} (json : JsonOps J) where
  -- `none` is the exception of `dump` for a text that is not UTF-8.
  abbrev pub dumped : J → Option Text
  dumped j = if json.dumps j then some (json.dump j) else none

  unfoldable pub description_message : Description → Option Text
  description_message d = dumped (
      json.object
        ((codes "type", json.string d.type_string) ∷ (codes "sdp", json.string d.sdp) ∷ []))

  -- `if (pc_->negotiationNeeded())`; `none` is the call through a `pc_` that is not set.
  unfoldable pub renegotiate : Connection J → Option (Connection J)
  unfolding called
  renegotiate s =
      if s.peer
      then some (if s.negotiation_needed then called set_local_description s else s)
      else none

  unfoldable pub send_updated : Description → Connection J → Option (Connection J)
  unfolding called renegotiate description_message
  send_updated d s = elim d.type_ [
    | offer ↦ Option.map (λ text. called (send_offer text s.metadata) s) (description_message d)
    | answer ↦
        description_message d >>= λ text. renegotiate (called (send_answer text s.metadata) s)
    | other_type ↦ some s
  ]

  unfoldable pub send_description : Option Description → Connection J → Option (Connection J)
  unfolding update_meta_tracks send_updated
  send_description none s = some s
  send_description (some d) s = do t ← update_meta_tracks json s; send_updated d t

  -- `local` and `gathered` are what the peer connection answers; `none` is an exception, or `pc_` is
  -- not set.
  unfoldable pub handle_signaling_state_change :
      SignalingState → Option Description → Bool → Connection J → Option (Connection J)
  unfolding send_description
  handle_signaling_state_change other_state local gathered s = some s
  handle_signaling_state_change _ local gathered s =
      if not s.peer
      then none
      else (if s.can_trickle || gathered then send_description local s else some s)

  unfoldable pub handle_local_candidate : Text → Text → Connection J → Option (Connection J)
  unfolding update_meta_tracks called
  handle_local_candidate mid candidate s =
      let message = dumped (
        json.object
          ((codes "sdpMid", json.string mid) ∷ (codes "candidate", json.string candidate) ∷ [])) in
      if s.can_trickle
      then (do
        text ← message
        t ← update_meta_tracks json s
        some (called (send_ice text t.metadata) t))
      else some s

  unfoldable pub send_gathered : Description → Connection J → Option (Connection J)
  unfolding called description_message
  send_gathered d s = do
    text ← description_message d
    elim d.type_ [
      | offer ↦ some (called (send_offer text s.metadata) s)
      | _ ↦ some (called (send_answer text s.metadata) s)
    ]

  -- `complete` is whether the state is `Complete`. A missing description is read all the same.
  unfoldable pub handle_gathering_state_change :
      Bool → Option Description → Connection J → Option (Connection J)
  unfolding update_meta_tracks send_gathered
  handle_gathering_state_change complete local s =
      if complete && not s.can_trickle
      then (if s.peer
          then elim local [ none ↦ none | some d ↦ update_meta_tracks json s >>= send_gathered d ]
          else none)
      else some s
