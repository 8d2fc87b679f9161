-- ===== src/Rtsp/Tests.antt =====
-- Runs of the model of src/modules/rtsp-client/rtsp_client.cpp, and the theorems at concrete inputs.
use edge_device_webrtc.Rtsp.Rtcp.{RtcpClient, rtcp_runner, rtcp_runner-answers}
use edge_device_webrtc.Util.Url.{url_decode}
use edge_device_webrtc.Rtsp.Credentials.{parse_url-credential_url, scheme, credential_url}
use edge_device_webrtc.Rtsp.Url.{parse_url}
use edge_device_webrtc.Rtsp.Sdp.{Negotiators, Description}
use edge_device_webrtc.Rtsp.Client.{CurlOps, Client}
use edge_device_webrtc.Prelude.{
  replicate, List, Bool, ℕ, ◌++◌, arith, none, refl, false, true, some, ◌≡◌, ◌∷◌, codes, [], Option,
  Text,
}

-- A server that answers every request with an empty success.
abbrev ok_curl : CurlOps Unit
ok_curl = record {
  setopt = λ o e. (0, e);
  perform = λ e. (record { res = 0; status = 200; headers = []; body = [] }, e);
}

abbrev hash : Text → Text
hash t = b'h' ∷ t

abbrev encode : Text → Text
encode t = t

abbrev one_video : Text → Option Description
one_video sdp = some (record {
  attributes = [];
  media =
      some (record {
        type_ = codes "video";
        attributes = codes "control:v" ∷ [];
        payload_types = 96 ∷ [];
      })
      ∷ [];
})

abbrev matching : Negotiators
matching = record {
  video_default = 96;
  audio_default = 111;
  video_throws = λ m. false;
  audio_throws = λ m. false;
}

abbrev any_port : ℕ → Bool
any_port port = true

abbrev client : Client Unit
client = record {
  url = codes "u";
  username = codes "a";
  password = codes "b";
  prefer_tcp = true;
  port = 42222;
  headers = [];
  read_buffer = [];
  content_base = [];
  req_headers = [];
  is_digest = false;
  ha1 = [];
  nonce = [];
  realm = [];
  auth_header = [];
  session_url = [];
  video_url = [];
  audio_url = [];
  video_pt = 0;
  audio_pt = 0;
  tcp_client = false;
  video_ports = none;
  audio_ports = none;
  start_cb = true;
  resolved = [];
  env = tt;
}

parse_url-credential_url_example :
    parse_url (credential_url (codes "me") (codes "a%40b") (codes "cam:8554/v"))
    ≡ some (record {
      url = scheme ++ codes "cam:8554/v";
      username = url_decode (codes "me");
      password = url_decode (codes "a%40b");
      configured = true;
    })
parse_url-credential_url_example =
    parse_url-credential_url (codes "me") (codes "a%40b") (codes "cam:8554/v") (refl, (refl, tt))
      (refl, (refl, tt)) (refl, (refl, (refl, (refl, (refl, tt))))) (omega arith)

abbrev running_rtcp : RtcpClient
running_rtcp = record { stopped = false; socket = true; thread = true; sent = [] }

-- A peer that gets its report back, a datagram that is too short, and an error.
abbrev datagrams : List (Option (ℕ × Text))
datagrams = some (5, replicate 28 1) ∷ some (6, 1 ∷ []) ∷ none ∷ some (7, replicate 28 2) ∷ []

abbrev echo : Text → Text
echo d = d

rtcp_runner-answers_example :
    (rtcp_runner echo datagrams running_rtcp).sent ≡ (5, replicate 28 1) ∷ []
rtcp_runner-answers_example = rtcp_runner-answers echo datagrams running_rtcp refl
