-- ===== src/Connection/Tests.antt =====
-- The theorems on src/library/webrtc-connection at concrete inputs.
use edge_device_webrtc.Signaling.State.{TurnServer}
use edge_device_webrtc.Connection.Sending.Answer.{answer_sent, answer_calls}
use edge_device_webrtc.Connection.Sending.{have_remote_offer, handle_signaling_state_change}
use edge_device_webrtc.Connection.Tracks.Unlisted.{unlisted_track, nameless}
use edge_device_webrtc.Connection.Tracks.{handle_track_event}
use edge_device_webrtc.Connection.Turn.Escape.{server_url-escape_colons, escape_colons, after_turn}
use edge_device_webrtc.Connection.Turn.{server_url}
use edge_device_webrtc.Json.Value.Laws.{value_laws}
use edge_device_webrtc.Connection.Metadata.Listed.{Listed}
use edge_device_webrtc.Connection.Metadata.{has_error, update_meta_tracks}
use edge_device_webrtc.Json.Value.{field, no_items, no_fields, text, value_json, item, Value}
use edge_device_webrtc.Connection.Metadata.Status.{update_meta_tracks-Listed, Status, noted, fails}
use edge_device_webrtc.Connection.Metadata.Marks.{member, mids, tracks_of}
use edge_device_webrtc.Connection.Channels.{
  open_channel-stream_label, no_channel, stream_channel, open_channel, digits_value,
}
use edge_device_webrtc.Prelude.{
  none, ◌++◌, text_eq, Lacks, if◌then◌else◌, arith, ◌^◌, ◌%◌, ◌<◌, ◌∷◌, refl, [], true, some, false,
  codes, ◌≡◌,
}
use edge_device_webrtc.Connection.State.{
  answer, access_denied, invalid_codecs, ok, connected, Description, Connection,
}

forty_two : digits_value (codes "42") 0 < 2 ^ 64
unfolding digits_value
forty_two = omega arith

open_channel-stream_label_example :
    (open_channel (codes "stream-42") ≡ stream_channel (digits_value (codes "42") 0 % 2 ^ 32))
    × (open_channel (codes "nabto-stream-42") ≡ no_channel)
open_channel-stream_label_example =
    open_channel-stream_label b'4' (codes "2") (codes "42") refl forty_two

-- A camera whose client lists one track, with three tracks of the device: the listed one fails.
abbrev camera : Connection Value
camera = record {
  state = connected;
  peer = true;
  stable = false;
  negotiation_needed = false;
  polite = false;
  making_offer = false;
  ignore_offer = false;
  can_trickle = true;
  metadata =
      field (codes "tracks") (item (field (codes "mid") (text (codes "0")) no_fields) no_items)
        no_fields;
  media_tracks =
      record { mid = codes "0"; track_id = codes "video"; error = invalid_codecs; rtc_track = true }
      ∷ record {
        mid = codes "1";
        track_id = codes "audio";
        error = access_denied;
        rtc_track = true;
      }
      ∷ [];
  datachannels = [];
  coap_channel = false;
  stream_channel = false;
  handler = true;
  calls = [];
}

camera-Listed : Listed value_json camera.metadata (codes "0" ∷ [])
unfolding tracks_of mids text_eq
camera-Listed = (field (codes "mid") (text (codes "0")) no_fields ∷ [], refl, refl)

update_meta_tracks-Listed_example :
    (updated : Value) × (update_meta_tracks value_json camera
      ≡ some (record camera { metadata = updated }))
    × Listed value_json updated (noted camera.media_tracks (codes "0" ∷ []))
    × Status value_json updated
        (if fails camera.media_tracks (codes "0" ∷ []) then codes "FAILED" else codes "OK")
update_meta_tracks-Listed_example =
    update_meta_tracks-Listed value_json value_laws camera (codes "0" ∷ []) camera-Listed

abbrev relay : TurnServer
relay = record {
  urls = codes "turn:t.example" ∷ [];
  username = codes "1:me:2";
  credential = codes "secret";
}

server_url-escape_colons_example :
    (server_url relay (codes "turn:t.example")
      ≡ some (
          codes "turn:"
          ++ ((escape_colons (codes "1:me:2") ++ (codes ":" ++ (codes "secret" ++ codes "@")))
              ++ codes "t.example")))
    × Lacks b':' (escape_colons (codes "1:me:2"))
server_url-escape_colons_example =
    server_url-escape_colons relay (codes "turn:t.example") (codes "t.example") refl refl after_turn

two_unlisted : member (codes "2") (codes "0" ∷ []) ≡ false
unfolding text_eq
two_unlisted = refl

unlisted_track_example :
    (touched : Value) × (handle_track_event value_json (some (λ m. ok)) (codes "2") camera ≡ (
      if has_error ok
      then some (record camera {
        metadata = touched;
        media_tracks = camera.media_tracks ++ record (nameless (codes "2")) { error = ok } ∷ [];
      })
      else none))
unlisted_track_example =
    unlisted_track value_json value_laws (codes "2") camera (codes "0" ∷ []) (λ m. ok) camera-Listed
      two_unlisted

abbrev an_answer : Description
an_answer = record { type_ = answer; type_string = codes "answer"; sdp = codes "v=0" }

answer_sent_example :
    (updated : Value) × (handle_signaling_state_change value_json have_remote_offer
        (some an_answer)
        false
        camera
      ≡ some (record camera {
        metadata = updated;
        calls = answer_calls value_json an_answer updated false;
      }))
    × Listed value_json updated (noted camera.media_tracks (codes "0" ∷ []))
    × Status value_json updated
        (if fails camera.media_tracks (codes "0" ∷ []) then codes "FAILED" else codes "OK")
answer_sent_example =
    answer_sent value_json value_laws an_answer false camera (codes "0" ∷ []) camera-Listed refl
      refl refl refl
