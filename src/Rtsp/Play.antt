-- ===== src/Rtsp/Play.antt =====
-- The answers to PLAY in `setupRtsp` of src/modules/rtsp-client/rtsp_client.cpp.
use edge_device_webrtc.Rtsp.Setup.{undefined, literal_plus, bad_status, play_answered, perform_play}
use edge_device_webrtc.Prelude.{refl, arith, lt→ltb, ltb, true, ◌<◌, ◌≡◌, Text}
use edge_device_webrtc.Rtsp.Client.{Client, perform, CurlOps}

module _ {E : Type 0} (curl : CurlOps E) (md5 : Text → Text) where
  -- Where the server answers PLAY with a status above 299, the message is read from a position behind
  -- the end of its literal, and the callback has not been called.
  bad_play_status_undefined :
      (s : Client E)
      → (curl.perform s.env).0.res ≡ 0
      → 299 < (curl.perform s.env).0.status
      → (t : Client E) × (perform_play curl md5 (true, s) ≡ undefined t) × (t.resolved ≡ s.resolved)
  unfolding perform_play play_answered bad_status literal_plus perform
  bad_play_status_undefined s ok bad =
      let past : ltb 43 (curl.perform s.env).0.status ≡ true = lt→ltb 43 _ (omega arith) in
      (
        record s { env = (curl.perform s.env).1 },
        rw (ok, lt→ltb 299 _ bad, past, play_answered, bad_status, literal_plus) refl,
        refl,
      )
