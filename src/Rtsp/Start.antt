-- ===== src/Rtsp/Start.antt =====
-- `start` and `close` of `RtspClient` (src/modules/rtsp-client/rtsp_client.cpp). A request
-- that is handed to the thread of `CurlAsync` is performed by a step of its own.
pub mod Finish
use edge_device_webrtc.Rtsp.Setup.{returned, undefined, setup_rtsp, Ending, literal_plus}
use edge_device_webrtc.Rtsp.Sdp.{Description, Negotiators}
use edge_device_webrtc.Prelude.{
  ltb, some, not, none, if◌then◌else◌, ◌==◌, codes, [], ◌∷◌, ℕ, true, Option, Bool, Text,
}
use edge_device_webrtc.Rtsp.Client.{
  teardown, Answer, options, resolve_start, request, perform, url, stream_uri, set_opts, Client,
  CurlOps,
}

module _ {E : Type 0} (curl : CurlOps E) where
  -- `start` up to `asyncInvoke`: whether the request is handed over.
  unfoldable pub start : Client E → Bool × Client E
  unfolding set_opts
  start s =
      let t : Client E = record s { start_cb = true } in
      let (res, u) = set_opts curl (url s.url ∷ stream_uri s.url ∷ request options ∷ []) t in
      (res == 0, u)

  -- `close`, which is `teardown`, up to `asyncInvoke`.
  unfoldable pub close : Client E → Bool × Client E
  unfolding set_opts
  close s =
      let (res, u) = set_opts curl (stream_uri s.session_url ∷ request teardown ∷ []) s in
      (res == 0, u)

module _ {E : Type 0} (curl : CurlOps E) (md5 base64 : Text → Text)
    (parse : Text → Option Description) (nego : Negotiators) (binds : ℕ → Bool) where
  -- A status above 299: the number is added to the literal.
  unfoldable pub bad_options_status : ℕ → Client E → Ending E
  unfolding literal_plus resolve_start
  bad_options_status status s =
      elim (literal_plus (codes "RTSP OPTIONS request failed with status code: ") status) [
        | none ↦ undefined s
        | some msg ↦ returned (resolve_start (some msg) s)
      ]

  -- The callback of the OPTIONS request; `fuel` is for `sendDescribe`.
  unfoldable pub options_answered : ℕ → Answer → Client E → Option (Ending E)
  unfolding bad_options_status resolve_start setup_rtsp
  options_answered fuel answer s =
      if not (answer.res == 0)
      then some (returned (resolve_start (some (codes "Failed to send Options Request")) s))
      else (if ltb 299 answer.status
          then some (bad_options_status answer.status s)
          else setup_rtsp curl md5 base64 parse nego binds fuel s)

  -- The thread performs the request that `start` has handed over.
  unfoldable pub run_start : ℕ → Client E → Option (Ending E)
  unfolding perform options_answered
  run_start fuel s = let (answer, t) = perform curl s in options_answered fuel answer t
