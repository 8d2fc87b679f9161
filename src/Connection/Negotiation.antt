-- ===== src/Connection/Negotiation.antt =====
-- `handleSignalingMessage` of webrtc_connection.cpp and `setMetadata` of webrtc_connection.hpp.
use edge_device_webrtc.Prelude.{
  none, false, ◌||◌, true, some, not, codes, ◌&&◌, if◌then◌else◌, Option, Bool,
}
use edge_device_webrtc.Connection.State.{
  set_local_description, set_remote_description, offer, called, Description, Connection,
}
use edge_device_webrtc.Json.{JsonOps}

module _ {J : Type 0} (json : JsonOps J) where
  -- An exception of `get` is caught.
  unfoldable pub set_metadata : J → Connection J → Connection J
  set_metadata metadata s =
      let t = record s { metadata = metadata } in
      if json.contains metadata (codes "noTrickle")
      then elim (json.field metadata (codes "noTrickle")) [
        | none ↦ t
        | some j ↦ elim (json.get_bool j) [ some true ↦ record t { can_trickle = false } | _ ↦ t ]
      ]
      else t

  unfoldable pub is_offer : Description → Bool
  is_offer d = elim d.type_ [ offer ↦ true | _ ↦ false ]

  unfoldable pub collides : Description → Connection J → Bool
  unfolding is_offer
  collides d s = is_offer d && (s.making_offer || not s.stable)

  -- What follows an offer or an answer that is not ignored. `throws` is whether the peer connection
  -- refuses the description, which ends the method.
  unfoldable pub apply_description : Bool → Description → J → Connection J → Connection J
  unfolding set_metadata is_offer called
  apply_description throws d metadata s =
      let t = called (set_remote_description d) (set_metadata metadata s) in
      if not throws && is_offer d then called set_local_description t else t

  unfoldable pub unless_ignored : Bool → Description → J → Connection J → Connection J
  unfolding apply_description
  unless_ignored throws d metadata s =
      if s.ignore_offer then s else apply_description throws d metadata s

  -- The caller has made sure that `pc_` is set.
  unfoldable pub handle_signaling_message :
      Bool → Option Description → J → Connection J → Connection J
  unfolding collides unless_ignored
  handle_signaling_message throws none metadata s = s
  handle_signaling_message throws (some d) metadata s =
      unless_ignored throws d metadata (record s { ignore_offer = not s.polite && collides d s })
