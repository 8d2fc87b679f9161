-- ===== src/Rtp/Client.antt =====
-- `RtpClient` of src/modules/rtp-client/rtp_client.cpp. `R` is the type of repacketizers, which a
-- factory makes.
use edge_device_webrtc.Prelude.{
  ◌==◌, text_eq, not, get_or, put_key, erase_key, ◌^◌, ◌%◌, ◌+◌, ◌∷◌, is_empty, false, [], Text,
  List, ◌++◌, ℕ, true, if◌then◌else◌, Bool,
}

-- `RtpTrack`; a media track is a number.
pub record RtpTrack (R : Type 0) : Type 0 where
  pub track : ℕ
  pub repacketizer : R
  pub ssrc : ℕ
  pub src_payload_type : ℕ
  pub dst_payload_type : ℕ

pub data Direction : Type 0 where
  send_only recv_only send_recv : Direction

-- The calls that leave the client.
pub data RtpCall : Type 0 where
  listen_on : ℕ → RtpCall
  close_socket join_thread : RtpCall
  set_receive_callback : ℕ → RtpCall
  send_packet : ℕ → Text → RtpCall
  send_to : ℕ → Text → RtpCall

-- `socket` is whether `videoRtpSock_` is not 0, `thread` whether `videoThread_` is joinable. The map
-- of media tracks is a list in the order of its keys.
pub record RtpClient (R : Type 0) : Type 0 where
  pub stopped : Bool
  pub media_tracks : List (ℕ × RtpTrack R)
  pub video_port : ℕ
  pub remote_port : ℕ
  pub socket : Bool
  pub thread : Bool
  pub calls : List RtpCall

-- How an operation ends: `std::runtime_error` leaves the object as it is then.
pub data Ended (R : Type 0) : Type 0 where
  done thrown : RtpClient R → Ended R

module _ {R : Type 0} where
  unfoldable pub called : RtpCall → RtpClient R → RtpClient R
  called c s = record s { calls = s.calls ++ c ∷ [] }

  -- `bound` is whether `bind` succeeds. A `std::thread` that is joinable ends the program when it
  -- is assigned to.
  unfoldable pub start : Bool → RtpClient R → Ended R
  unfolding called
  start bound s =
      let t = called (listen_on s.video_port) (record s { stopped = false; socket = true }) in
      if bound then done (record t { thread = true }) else thrown t

  unfoldable pub start_if_stopped : Bool → RtpClient R → Ended R
  unfolding start
  start_if_stopped bound s = if s.stopped then start bound s else done s

  -- The receive callback is set unless the negotiator sends only.
  unfoldable pub receive_on : Direction → ℕ → RtpClient R → RtpClient R
  unfolding called
  receive_on send_only track s = s
  receive_on _ track s = called (set_receive_callback track) s

  unfoldable pub add_connection : Bool → Direction → ℕ → RtpTrack R → RtpClient R → Ended R
  unfolding start_if_stopped receive_on
  add_connection bound direction ref t s =
      elim (start_if_stopped bound (record s { media_tracks = put_key ref t s.media_tracks })) [
        | done u ↦ done (receive_on direction t.track u)
        | thrown u ↦ thrown u
      ]

  -- The shutdown and the close of the socket; `videoRtpSock_` is not reset.
  unfoldable pub halt : RtpClient R → RtpClient R
  unfolding called
  halt s = let t = record s { stopped = true } in if s.socket then called close_socket t else t

  unfoldable pub join : RtpClient R → RtpClient R
  unfolding called
  join s = if s.thread then called join_thread (record s { thread = false }) else s

  unfoldable pub stop : RtpClient R → RtpClient R
  unfolding halt join
  stop s = let t = if s.stopped then s else join (halt s) in record t { media_tracks = [] }

  unfoldable pub remove_connection : ℕ → RtpClient R → RtpClient R
  unfolding stop
  remove_connection ref s =
      let t = record s { media_tracks = erase_key ref s.media_tracks } in
      if is_empty t.media_tracks then stop t else t

  -- A client after its constructor: the remote port is the next one.
  abbrev pub new_client : ℕ → RtpClient R
  new_client port = record {
    stopped = true;
    media_tracks = [];
    video_port = port;
    remote_port = (port + 1) % 2 ^ 16;
    socket = false;
    thread = false;
    calls = [];
  }

-- `isTrack`, and `matchMedia` from the payload type that the negotiator gives.
unfoldable pub is_client_track : Text → Text → Bool
is_client_track own id = text_eq id own

unfoldable pub match_client_media : ℕ → Bool
match_client_media pt = not (pt == 0)

module _ {R : Type 0} (make : ℕ → ℕ → ℕ → R) where
  -- What `addConnection` makes of a media track, from the SSRC and the payload type of the
  -- negotiator and the payload types of the description: `make` is the factory.
  unfoldable pub track_of : ℕ → ℕ → List ℕ → ℕ → RtpTrack R
  track_of ssrc payload_type payload_types media = record {
    track = media;
    repacketizer = make media ssrc (get_or payload_types 0 0);
    ssrc = ssrc;
    src_payload_type = payload_type;
    dst_payload_type = get_or payload_types 0 0;
  }

  -- `addConnection(ref, media)`.
  unfoldable pub add_media : Bool → Direction → ℕ → ℕ → List ℕ → ℕ → ℕ → RtpClient R → Ended R
  unfolding track_of add_connection
  add_media bound direction ssrc payload_type payload_types ref media s =
      add_connection bound direction ref (track_of ssrc payload_type payload_types media) s
