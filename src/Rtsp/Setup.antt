-- ===== src/Rtsp/Setup.antt =====
-- `setupRtsp`, `performSetupReq` and `start` of src/modules/rtsp-client/rtsp_client.cpp.
use edge_device_webrtc.Rtsp.Strings.{decimal}
use edge_device_webrtc.Rtsp.Describe.{
  Described, described, refused, out_of_fuel, parse_describe_headers, send_describe,
}
use edge_device_webrtc.Rtsp.Sdp.{taken, thrown, Taken, Negotiators, parse_sdp, Description}
use edge_device_webrtc.Rtsp.Client.{
  Answer, transport, setup, play, request, stream_uri, set_digest_header, range, set_opts,
  resolve_start, perform, CurlOps, Client,
}
use edge_device_webrtc.Prelude.{
  false, Bool, ◌^◌, ◌%◌, drop, [], ◌∷◌, ◌==◌, ◌&&◌, some, length, ◌+◌, true, not, none, ltb,
  is_empty, ◌++◌, if◌then◌else◌, codes, Option, ℕ, Text,
}

-- How `setupRtsp` ends: it returns, it goes on with `run` of the TCP client as its last call, an
-- exception leaves it, or its message reads past the end of a literal, with the client as it is
-- then.
pub data Ending (E : Type 0) : Type 0 where
  returned enters_run uncaught undefined : Client E → Ending E

-- `"literal" + status` moves the pointer to the literal; `none` is a position behind its end.
unfoldable pub literal_plus : Text → ℕ → Option Text
literal_plus literal n = if ltb (length literal) n then none else some (drop n literal)

abbrev pub udp_transport : ℕ → Text
udp_transport port =
    codes "RTP/AVP;unicast;client_port=" ++ decimal port ++ codes "-" ++ decimal (port + 1)

-- `if (tcpClient_ != nullptr) tcpClient_->run()`, with which the function ends.
unfoldable pub run_tcp : {E : Type 0} → Client E → Ending E
run_tcp s = if s.tcp_client then enters_run s else returned s

module _ {E : Type 0} (curl : CurlOps E) (md5 : Text → Text) where
  unfoldable pub perform_setup_req : Text → Text → Client E → Option Text × Client E
  unfolding set_opts set_digest_header perform
  perform_setup_req uri transport_ s =
      let (first, t) = set_opts curl (stream_uri uri ∷ request setup ∷ []) s in
      let (signed, u) =
        if t.is_digest then set_digest_header curl md5 (codes "SETUP") uri t else (true, t) in
      let (second, v) = set_opts curl (transport transport_ ∷ []) u in
      let (answer, w) = perform curl v in
      if not (first == 0)
      then (some (codes "Failed to create SETUP request"), t)
      else (if not signed
          then (some (codes "Failed to set authorization header"), u)
          else (if not (second == 0)
              then (some (codes "Failed to set Transport header"), v)
              else (if not (answer.res == 0)
                  then (some (codes "Failed to perform RTSP SETUP request"), w)
                  else (none, w))))

  -- `start` of an RTCP client throws where its port is not free.
  abbrev pub rtcp_started : Bool → Client E → Ending E
  rtcp_started true s = returned s
  rtcp_started false s = uncaught s

  -- The clients that a stream gets after its SETUP: one TCP client for both, or UDP clients for RTP
  -- and RTCP on 16-bit ports; `binds` tells which ports are free.
  unfoldable pub start_video : (ℕ → Bool) → Client E → Ending E
  start_video binds s =
      if s.prefer_tcp
      then returned (record s { tcp_client = true })
      else rtcp_started (binds ((s.port + 1) % 2 ^ 16))
          (record s { video_ports = some (s.port, (s.port + 1) % 2 ^ 16) })

  unfoldable pub start_audio : (ℕ → Bool) → Client E → Ending E
  start_audio binds s =
      if s.prefer_tcp
      then returned (record s { tcp_client = true })
      else rtcp_started (binds ((s.port + 3) % 2 ^ 16))
          (record s { audio_ports = some ((s.port + 2) % 2 ^ 16, (s.port + 3) % 2 ^ 16) })

  -- `run` is what follows a block. A block is skipped where the URL is empty, and the function is
  -- left where the request failed or an exception was thrown.
  unfoldable pub then_run : Ending E → (Client E → Ending E) → Ending E
  then_run (returned s) run = run s
  then_run e run = e

  unfoldable pub setup_block :
      Bool
      → Client E
      → Option Text × Client E
      → (Client E → Ending E)
      → (Client E → Ending E)
      → Ending E
  unfolding then_run resolve_start
  setup_block true s result start_stream run = run s
  setup_block false s (some error, t) start_stream run = returned (resolve_start (some error) t)
  setup_block false s (none, t) start_stream run = then_run (start_stream t) run

  unfoldable pub setup_video : (ℕ → Bool) → Client E → (Client E → Ending E) → Ending E
  unfolding perform_setup_req setup_block start_video
  setup_video binds s run =
      let trans =
        if s.prefer_tcp
        then codes "RTP/AVP/TCP;unicast;interleaved=0-1"
        else udp_transport s.port in
      setup_block (is_empty s.video_url) s (perform_setup_req s.video_url trans s)
        (start_video binds) run

  unfoldable pub setup_audio : (ℕ → Bool) → Client E → (Client E → Ending E) → Ending E
  unfolding perform_setup_req setup_block start_audio
  setup_audio binds s run =
      let trans =
        if s.prefer_tcp
        then codes "RTP/AVP/TCP;unicast;interleaved=2-3"
        else udp_transport (s.port + 2) in
      setup_block (is_empty s.audio_url) s (perform_setup_req s.audio_url trans s)
        (start_audio binds) run

  -- What follows an answer to PLAY that is no error.
  unfoldable pub finish_play : Client E → Ending E
  unfolding set_opts resolve_start run_tcp
  finish_play s = elim ((set_opts curl (range none ∷ []) s).0 == 0) [
    | false ↦ returned (
        resolve_start (some (codes "Failed to reset Curl RTSP range option"))
          (set_opts curl (range none ∷ []) s).1)
    | true ↦ run_tcp (resolve_start none (set_opts curl (range none ∷ []) s).1)
  ]

  -- The message of a bad status moves the pointer to the literal by the status.
  unfoldable pub bad_status : ℕ → Client E → Ending E
  unfolding literal_plus resolve_start
  bad_status status s =
      elim (literal_plus (codes "RTSP PLAY request failed with status code: ") status) [
        | none ↦ undefined s
        | some msg ↦ returned (resolve_start (some msg) s)
      ]

  unfoldable pub play_answered : Answer → Client E → Ending E
  unfolding finish_play bad_status
  play_answered answer s = elim (answer.res == 0) [
    | false ↦ returned (resolve_start (some (codes "Failed to send PLAY Request")) s)
    | true ↦ elim (ltb 299 answer.status) [
      | true ↦ bad_status answer.status s
      | false ↦ finish_play s
    ]
  ]

  unfoldable pub perform_play : Bool × Client E → Ending E
  unfolding perform play_answered resolve_start
  perform_play (false, s) =
      returned (resolve_start (some (codes "Failed to set Authorization Digest header")) s)
  perform_play (true, s) = play_answered (perform curl s).0 (perform curl s).1

  -- A request that cannot be created is reported.
  unfoldable pub check_created : ℕ × Client E → Client E
  unfolding resolve_start
  check_created (res, s) =
      if res == 0 then s else resolve_start (some (codes "Failed to create PLAY request")) s

  -- It is performed all the same.
  unfoldable pub play_session : Client E → Ending E
  unfolding set_opts set_digest_header perform_play check_created
  play_session s =
      let u = check_created (
        set_opts curl
          (stream_uri s.session_url ∷ range (some (codes "npt=now-")) ∷ request play ∷ []) s) in
      perform_play (
        if u.is_digest
        then set_digest_header curl md5 (codes "PLAY") u.session_url u
        else (true, u))

  unfoldable pub setup_streams : (ℕ → Bool) → Client E → Ending E
  unfolding setup_video setup_audio play_session resolve_start
  setup_streams binds s =
      if is_empty s.video_url && is_empty s.audio_url
      then returned (resolve_start (some (codes "Describe response contained no feeds")) s)
      else setup_video binds s (λ t. setup_audio binds t play_session)

module _ {E : Type 0} (curl : CurlOps E) (md5 base64 : Text → Text)
    (parse : Text → Option Description) (nego : Negotiators) (binds : ℕ → Bool) where
  unfoldable pub setup_taken : Taken E → Ending E
  unfolding setup_streams
  setup_taken (thrown s) = uncaught s
  setup_taken (taken s) = setup_streams curl md5 binds s

  -- `parse` is the constructor of `rtc::Description`; `none` is its exception.
  unfoldable pub setup_described : Client E → Ending E
  unfolding parse_describe_headers parse_sdp setup_taken
  setup_described s =
      let t = parse_describe_headers s in
      elim (parse t.read_buffer) [
        | none ↦ uncaught t
        | some desc ↦ setup_taken (parse_sdp nego desc t)
      ]

  -- What follows `sendDescribe`; without enough fuel there is no ending.
  unfoldable pub after_describe : Described × Client E → Option (Ending E)
  unfolding setup_described resolve_start
  after_describe (out_of_fuel, s) = none
  after_describe (refused error, s) = some (returned (resolve_start (some error) s))
  after_describe (described, s) = some (setup_described s)

  -- `fuel` is for `sendDescribe`.
  unfoldable pub setup_rtsp : ℕ → Client E → Option (Ending E)
  unfolding send_describe after_describe
  setup_rtsp fuel s = after_describe (send_describe curl md5 base64 fuel s)
