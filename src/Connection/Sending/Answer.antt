-- ===== src/Connection/Sending/Answer.antt =====
-- The descriptions that the device sends (`handleSignalingStateChange`, `sendDescription` and
-- `updateMetaTracks` of webrtc_connection.cpp), with the metadata that go with them.
use edge_device_webrtc.Connection.Metadata.{update_meta_tracks}
use edge_device_webrtc.Prelude.{
  refl, ◌>>=◌, arith, append_assoc, ap, Option, ◌∙◌, [], codes, if◌then◌else◌, ◌∷◌, ◌++◌, ◌||◌,
  some, true, ◌≡◌, Text, List, Bool,
}
use edge_device_webrtc.Connection.State.{
  set_local_description, send_answer, answer, Call, called, Connection, Description,
}
use edge_device_webrtc.Connection.Sending.{
  have_remote_offer, description_message, send_description, renegotiate, send_updated,
  handle_signaling_state_change,
}
use edge_device_webrtc.Connection.Metadata.Status.{update_meta_tracks-Listed, Status, noted, fails}
use edge_device_webrtc.Connection.Metadata.Listed.{Listed}
use edge_device_webrtc.Json.{JsonOps, JsonLaws}

module _ {J : Type 0} (json : JsonOps J) where
  -- The object that is sent for a description: its type and its SDP.
  abbrev pub answer_object : Description → J
  answer_object d =
      json.object
        ((codes "type", json.string d.type_string) ∷ (codes "sdp", json.string d.sdp) ∷ [])

  -- The calls that an answer makes.
  abbrev pub answer_calls : Description → J → Bool → List (Call J)
  answer_calls d metadata needed =
      send_answer (json.dump (answer_object d)) metadata
      ∷ (if needed then set_local_description ∷ [] else [])

module _ {J : Type 0} (json : JsonOps J) (laws : JsonLaws json) where
  send_updated-renegotiate :
      (d : Description) (s : Connection J)
      → d.type_ ≡ answer
      → json.dumps (answer_object json d) ≡ true
      → send_updated json d s
        ≡ renegotiate json (called (send_answer (json.dump (answer_object json d)) s.metadata) s)
  unfolding send_updated description_message
  send_updated-renegotiate d s a valid = rw (a, valid, send_updated) refl

  renegotiate-called :
      (c : Call J) (s : Connection J)
      → s.peer ≡ true
      → renegotiate json (called c s)
        ≡ some (record s {
          calls =
              s.calls ++ (c ∷ (if s.negotiation_needed then set_local_description ∷ [] else []));
        })
  unfolding renegotiate called
  renegotiate-called c s p =
      ground (arith, append_assoc s.calls (c ∷ []) (set_local_description ∷ []))

  send_updated-answer :
      (d : Description) (s : Connection J)
      → d.type_ ≡ answer
      → json.dumps (answer_object json d) ≡ true
      → s.peer ≡ true
      → send_updated json d s
        ≡ some (record s { calls = s.calls ++ answer_calls json d s.metadata s.negotiation_needed })
  send_updated-answer d s a valid p =
      send_updated-renegotiate d s a valid
      ∙ renegotiate-called (send_answer (json.dump (answer_object json d)) s.metadata) s p

  send_description-updated :
      (d : Description) (s t : Connection J)
      → update_meta_tracks json s ≡ some t
      → send_description json (some d) s ≡ send_updated json d t
  unfolding send_description
  send_description-updated d s t u = ap (λ o. o >>= send_updated json d) u

  state_change-sends :
      (local : Option Description) (gathered : Bool) (s : Connection J)
      → s.peer ≡ true
      → (s.can_trickle || gathered) ≡ true
      → handle_signaling_state_change json have_remote_offer local gathered s
        ≡ send_description json local s
  unfolding handle_signaling_state_change
  state_change-sends local gathered s p ready = ground arith

  -- When an offer of the client has been set and an answer is there whose type and SDP can be
  -- written as JSON, and candidates trickle or are gathered, the device sends exactly one message,
  -- an answer with an object of this type and this SDP, and makes a new offer only if the peer
  -- connection needs one. With the answer go the metadata that `updateMetaTracks` leaves: they
  -- list the mids that were there and those of all media tracks, and the status is "FAILED" if a
  -- track that is listed when its turn comes has an error, "OK" otherwise.
  pub answer_sent :
      (d : Description) (gathered : Bool) (s : Connection J) (ns : List Text)
      → Listed json s.metadata ns
      → d.type_ ≡ answer
      → json.dumps (answer_object json d) ≡ true
      → s.peer ≡ true
      → (s.can_trickle || gathered) ≡ true
      → (updated : J) × (handle_signaling_state_change json have_remote_offer (some d) gathered s
          ≡ some (record s {
            metadata = updated;
            calls = s.calls ++ answer_calls json d updated s.negotiation_needed;
          }))
        × Listed json updated (noted s.media_tracks ns)
        × Status json updated (if fails s.media_tracks ns then codes "FAILED" else codes "OK")
  answer_sent d gathered s ns listed a valid p ready =
      let (updated, marked, last, status) = update_meta_tracks-Listed json laws s ns listed in
      let t : Connection J = record s { metadata = updated } in
      (
        updated,
        state_change-sends (some d) gathered s p ready
            ∙ send_description-updated d s t marked
            ∙ send_updated-answer d t a valid p,
        last,
        status,
      )
