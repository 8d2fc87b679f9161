-- ===== src/Fifo.antt =====
-- `FifoFileClient` of src/modules/fifo-file-client/fifo_file_client.cpp. `P` is the type of
-- packetizers, a file descriptor and a media track are numbers.
use edge_device_webrtc.Rtp.Client.{Direction, send_only}
use edge_device_webrtc.Prelude.{
  drop, length, ltb, ◌==◌, true, is_empty, [], ◌∷◌, ◌++◌, put_key, if◌then◌else◌, false, erase_key,
  Text, ℕ, Bool, List,
}

pub record FifoTrack (P : Type 0) : Type 0 where
  pub track : ℕ
  pub packetizer : P

pub data FifoCall : Type 0 where
  start_thread join_thread close_source : FifoCall
  open_target close_target : ℕ → FifoCall
  set_receive_callback : ℕ → FifoCall
  send_packet : ℕ → Text → FifoCall
  write_target : ℕ → Text → FifoCall

-- `fd_recv` is 0 where no file is open; `thread` is whether `thread_` is joinable.
pub record FifoFileClient (P : Type 0) : Type 0 where
  pub stopped : Bool
  pub media_tracks : List (ℕ × FifoTrack P)
  pub fd_recv : ℕ
  pub thread : Bool
  pub calls : List FifoCall

module _ {P : Type 0} where
  unfoldable pub called : FifoCall → FifoFileClient P → FifoFileClient P
  called c s = record s { calls = s.calls ++ c ∷ [] }

  unfoldable pub start : FifoFileClient P → FifoFileClient P
  unfolding called
  start s = called start_thread (record s { stopped = false; thread = true })

  unfoldable pub start_if_stopped : FifoFileClient P → FifoFileClient P
  unfolding start
  start_if_stopped s = if s.stopped then start s else s

  -- `fd` is what `open` gives; a descriptor that is open is not closed before.
  unfoldable pub receive_on : ℕ → Direction → ℕ → FifoFileClient P → FifoFileClient P
  unfolding called
  receive_on fd send_only track s = s
  receive_on fd _ track s =
      called (set_receive_callback track) (called (open_target fd) (record s { fd_recv = fd }))

  unfoldable pub do_add_connection :
      ℕ → Direction → ℕ → FifoTrack P → FifoFileClient P → FifoFileClient P
  unfolding start_if_stopped receive_on
  do_add_connection fd direction ref t s =
      receive_on fd direction t.track
        (start_if_stopped (record s { media_tracks = put_key ref t s.media_tracks }))

  unfoldable pub close_recv : FifoFileClient P → FifoFileClient P
  unfolding called
  close_recv s =
      if s.fd_recv == 0 then s else called (close_target s.fd_recv) (record s { fd_recv = 0 })

  unfoldable pub join : FifoFileClient P → FifoFileClient P
  unfolding called
  join s = if s.thread then called join_thread (record s { thread = false }) else s

  unfoldable pub stop : FifoFileClient P → FifoFileClient P
  unfolding called close_recv join
  stop s =
      let t =
        if s.stopped
        then s
        else join (close_recv (called close_source (record s { stopped = true }))) in
      record t { media_tracks = [] }

  unfoldable pub remove_connection : ℕ → FifoFileClient P → FifoFileClient P
  unfolding stop
  remove_connection ref s =
      let t : FifoFileClient P = record s { media_tracks = erase_key ref s.media_tracks } in
      if is_empty t.media_tracks then stop t else t

  -- The receive callback of a track, on a packet whose header gives a payload type and a length:
  -- the payload goes to the file.
  unfoldable pub receive_packet :
      ℕ → (Text → ℕ) → (Text → ℕ) → Text → FifoFileClient P → FifoFileClient P
  unfolding called
  receive_packet negotiated payload_type header_length buffer s =
      if payload_type buffer == negotiated
      then (if ltb (length buffer) (header_length buffer)
          then s
          else called (write_target s.fd_recv (drop (header_length buffer) buffer)) s)
      else s

module _ {P : Type 0} (incoming : P → Text → P × List Text) where
  unfoldable pub send_packets : ℕ → List Text → FifoFileClient P → FifoFileClient P
  unfolding called
  send_packets track [] s = s
  send_packets track (p ∷ ps) s = send_packets track ps (called (send_packet track p) s)

  -- The loop of the thread over the tracks, with what was read.
  unfoldable pub dispatch :
      Text → List (ℕ × FifoTrack P) → FifoFileClient P → List (ℕ × FifoTrack P) × FifoFileClient P
  unfolding send_packets
  dispatch data_ [] s = ([], s)
  dispatch data_ ((ref, t) ∷ ts) s =
      let (p, packets) = incoming t.packetizer data_ in
      let (rest, after) = dispatch data_ ts (send_packets t.track packets s) in
      ((ref, record t { packetizer = p }) ∷ rest, after)
