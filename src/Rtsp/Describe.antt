-- ===== src/Rtsp/Describe.antt =====
-- `sendDescribe` and `parseDescribeHeaders` of src/modules/rtsp-client/rtsp_client.cpp, in a build
-- with Basic and Digest authentication.
use edge_device_webrtc.Rtsp.Strings.{decimal, between}
use edge_device_webrtc.Rtsp.Client.{
  describe, request, write_function, write_data, http_header, header_data, set_opts,
  set_digest_header, perform, Opt, CurlOps, Client,
}
use edge_device_webrtc.Prelude.{
  zero, ltb, is_empty, ◌&&◌, Bool, inr, ◌==◌, ◌+◌, take, not, none, drop, true, some, is_some, inl,
  false, [], ◌⊎◌, ◌∷◌, ◌++◌, suc, if◌then◌else◌, codes, ℕ, find, Text, List,
}

-- `out_of_fuel` is no outcome of the code: `sendDescribe` calls itself.
pub data Described : Type 0 where
  described out_of_fuel : Described
  refused : Text → Described

unfoldable pub describe_opts : List Opt
describe_opts = header_data true ∷ write_function true ∷ write_data true ∷ request describe ∷ []

unfoldable pub after_opts : List Opt
after_opts = header_data false ∷ write_data false ∷ write_function false ∷ []

module _ {E : Type 0} (curl : CurlOps E) where
  -- The answer appends to `curlHeaders_` and `readBuffer_`.
  unfoldable pub receive : Client E → ℕ × Client E
  unfolding perform
  receive s =
      let (answer, t) = perform curl s in
      (
        answer.status,
        record t {
          headers = t.headers ++ answer.headers;
          read_buffer = t.read_buffer ++ answer.body;
        },
      )

  -- One exchange: the status, or the error of an option that fails.
  unfoldable pub exchange : Client E → (Text ⊎ ℕ) × Client E
  unfolding set_opts receive describe_opts after_opts
  exchange s =
      let (first, t) = set_opts curl describe_opts (record s { headers = []; read_buffer = [] }) in
      let (status, u) = receive t in
      let (second, v) = set_opts curl after_opts u in
      if not (first == 0)
      then (inl (codes "Failed to create RTSP Describe request. CURLcode: " ++ decimal first), t)
      else (if not (second == 0)
          then (
            inl (codes "Failed to perform RTSP DESCRIBE request. CURLcode: " ++ decimal second),
            v,
          )
          else (inr status, v))

-- What follows an exchange: `t` is the client then, `u` the one that `authenticate` leaves, `again`
-- whether it asks again, and `retried` what comes of that.
unfoldable pub after_exchange :
    {E : Type 0}
    → Text ⊎ ℕ
    → Client E
    → Bool
    → Client E
    → Described × Client E
    → Described × Client E
after_exchange (inl error) t again u retried = (refused error, t)
after_exchange (inr status) t again u retried =
    if status == 401 && is_empty t.auth_header
    then (if again then retried else (refused (codes "Invalid Describe response header"), u))
    else (if ltb 299 status
        then (refused (codes "Describe request failed with status code: " ++ decimal status), t)
        else (described, t))

module _ {E : Type 0} (curl : CurlOps E) (md5 base64 : Text → Text) where
  unfoldable pub use_basic : Client E → Client E
  unfolding set_opts
  use_basic s =
      let header =
        codes "Authorization: Basic " ++ base64 (s.username ++ codes ":" ++ s.password) in
      let headers = s.req_headers ++ header ∷ [] in
      (set_opts curl (http_header headers ∷ [])
        (record s { auth_header = header; req_headers = headers })).1

  -- False is a header without realm or nonce. The URI of the digest is a literal in the code.
  unfoldable pub use_digest : Client E → Bool × Client E
  unfolding set_digest_header between
  use_digest s =
      let t = record s { is_digest = true } in
      elim (between (codes "realm=\"") (codes "\"") s.headers) [
        | none ↦ (false, t)
        | some realm ↦ elim (between (codes "nonce=\"") (codes "\"") s.headers) [
          | none ↦ (false, record t { realm = realm })
          | some nonce ↦
              let ha1 = md5 (s.username ++ codes ":" ++ realm ++ codes ":" ++ s.password) in
              let u = record t { realm = realm; nonce = nonce; ha1 = ha1 } in
              (
                true,
                (set_digest_header curl md5 (codes "DESCRIBE") (codes "rtsp://127.0.0.1:8554/video")
                    u).1,
              )
        ]
      ]

  -- What follows a 401: whether the client asks again.
  unfoldable pub authenticate : Client E → Bool × Client E
  unfolding use_basic use_digest
  authenticate s =
      if is_some (find (codes "WWW-Authenticate: Basic") s.headers)
      then (true, use_basic s)
      else (if is_some (find (codes "WWW-Authenticate: Digest") s.headers)
          then use_digest s
          else (false, s))

  unfoldable pub send_describe : ℕ → Client E → Described × Client E
  unfolding exchange authenticate after_exchange
  send_describe zero s = (out_of_fuel, s)
  send_describe (suc fuel) s =
      let (answer, t) = exchange curl s in
      let (again, u) = authenticate t in
      let retried = send_describe fuel u in after_exchange answer t again u retried

-- `s` up to the end of its line.
unfoldable pub to_line_end : Text → Text
to_line_end s = elim (find (13 ∷ 10 ∷ []) s) [ none ↦ s | some pos ↦ take pos s ]

unfoldable pub content_base_of : Text → Text → Text
unfolding to_line_end
content_base_of url headers = elim (find (codes "Content-Base: ") headers) [
  | some pos ↦ to_line_end (drop (pos + 14) headers)
  | none ↦ elim (find (codes "Content-Location: ") headers) [
    | some pos ↦ to_line_end (drop pos headers)
    | none ↦ url
  ]
]

unfoldable pub parse_describe_headers : {E : Type 0} → Client E → Client E
unfolding content_base_of
parse_describe_headers s = record s { content_base = content_base_of s.url s.headers }
