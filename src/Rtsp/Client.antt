-- ===== src/Rtsp/Client.antt =====
-- The state of `RtspClient` (src/modules/rtsp-client/rtsp_client.hpp), the calls of libcurl as an
-- interface, and the operations that the requests share.
use edge_device_webrtc.Prelude.{
  is_empty, true, codes, [], ◌==◌, ◌++◌, false, ◌∷◌, if◌then◌else◌, Bool, ℕ, Text, Option, List,
}

pub data Request : Type 0 where
  options describe setup play teardown : Request

-- The options that `curl_easy_setopt` is called with.
pub data Opt : Type 0 where
  url stream_uri transport : Text → Opt
  request : Request → Opt
  range : Option Text → Opt
  http_header : List Text → Opt
  -- Whether headers and bodies go into the strings of the client or to `stdout`.
  header_data write_data : Bool → Opt
  -- `writeFunc`, or `NULL`.
  write_function : Bool → Opt

-- What `curl_easy_perform` gives: its code, the status, and the headers and the body it writes.
pub record Answer : Type 0 where
  pub res : ℕ
  pub status : ℕ
  pub headers : Text
  pub body : Text

-- `E` is the state of libcurl and of the server. Code 0 is `CURLE_OK`.
pub record CurlOps (E : Type 0) : Type 0 where
  pub setopt : Opt → E → ℕ × E
  pub perform : E → Answer × E

pub record Client (E : Type 0) : Type 0 where
  pub url : Text
  pub username : Text
  pub password : Text
  pub prefer_tcp : Bool
  pub port : ℕ
  pub headers : Text
  pub read_buffer : Text
  pub content_base : Text
  pub req_headers : List Text
  pub is_digest : Bool
  pub ha1 : Text
  pub nonce : Text
  pub realm : Text
  pub auth_header : Text
  pub session_url : Text
  pub video_url : Text
  pub audio_url : Text
  pub video_pt : ℕ
  pub audio_pt : ℕ
  -- Whether `tcpClient_` exists, and runs; the ports of the RTP and RTCP clients.
  pub tcp_client : Bool
  pub video_ports : Option (ℕ × ℕ)
  pub audio_ports : Option (ℕ × ℕ)
  -- Whether `startCb_` is set, and the calls of it.
  pub start_cb : Bool
  pub resolved : List (Option Text)
  pub env : E

unfoldable pub resolve_start : {E : Type 0} → Option Text → Client E → Client E
resolve_start error s =
    if s.start_cb then record s { start_cb = false; resolved = s.resolved ++ error ∷ [] } else s

module _ {E : Type 0} (curl : CurlOps E) where
  -- Calls of `curl_easy_setopt` joined by `||`: they stop at the first that fails.
  unfoldable pub set_opts : List Opt → Client E → ℕ × Client E
  set_opts [] s = (0, s)
  set_opts (o ∷ os) s =
      let (res, e) = curl.setopt o s.env in
      let t = record s { env = e } in elim (res == 0) [ true ↦ set_opts os t | false ↦ (res, t) ]

  unfoldable pub perform : Client E → Answer × Client E
  perform s = let (answer, e) = curl.perform s.env in (answer, record s { env = e })

module _ {E : Type 0} (curl : CurlOps E) (md5 : Text → Text) where
  unfoldable pub set_digest_header : Text → Text → Client E → Bool × Client E
  unfolding set_opts
  set_digest_header method uri s =
      let ha2 = md5 (method ++ codes ":" ++ uri) in
      let response = md5 (s.ha1 ++ codes ":" ++ s.nonce ++ codes ":" ++ ha2) in
      let header =
        codes "Authorization: Digest username=\""
        ++ s.username
        ++ codes "\", realm=\""
        ++ s.realm
        ++ codes "\", nonce=\""
        ++ s.nonce
        ++ codes "\", uri=\""
        ++ uri
        ++ codes "\", response=\""
        ++ response
        ++ codes "\"" in
      let t = record s { auth_header = header; req_headers = header ∷ [] } in
      if is_empty ha2
      then (false, s)
      else (true, (set_opts curl (http_header t.req_headers ∷ []) t).1)
