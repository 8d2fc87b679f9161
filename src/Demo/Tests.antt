-- ===== src/Demo/Tests.antt =====
-- The theorems on the demo program for one camera, one token and one JSON text.
use edge_device_webrtc.Demo.Options.Streams.{run_main-streams_for, streams_for}
use edge_device_webrtc.Demo.Key.Agree.{keys_agree}
use edge_device_webrtc.Util.Hex.RoundTrip.{IsByte}
use edge_device_webrtc.Util.Hex.{from_hex, to_hex}
use edge_device_webrtc.Demo.Options.{
  streaming, run_main, pcmu, h264, rtp_client, DeviceConf, MediaConf, Args,
}
use edge_device_webrtc.Demo.Key.{read_key}
use edge_device_webrtc.Demo.Requests.Authorized.{handle_oauth_request-Verified}
use edge_device_webrtc.Demo.TrackEvent.Decision.{handle_track-decision}
use edge_device_webrtc.Demo.Oauth.Verified.{Verified}
use edge_device_webrtc.Connection.State.{ok}
use edge_device_webrtc.Demo.TrackEvent.{handle_track}
use edge_device_webrtc.Json.{JsonOps}
use edge_device_webrtc.Demo.Streams.{MediaStream}
use edge_device_webrtc.Demo.Requests.{answer, handle_oauth_request, Iam, Curl}
use edge_device_webrtc.Demo.Oauth.{returned, after, Validator, PemOps, JwtOps}
use edge_device_webrtc.Demo.Coap.{create_feed, handle_tracks, Request, TracksOutcome}
use edge_device_webrtc.Listeners.{request_free, response}
use edge_device_webrtc.Demo.Answers.{tracks_request, Served-AnsweredOnce, World, AnsweredOnce}
use edge_device_webrtc.Prelude.{
  zero, arith, suc, false, replicate, All, length, ◌≤◌, refl, ◌≡◌, is_some, ◌∷◌, ◌++◌, true, some,
  none, [], Bool, text_eq, codes, Text, List, ℕ,
}
use edge_device_webrtc.Json.Value.{Value, field, text, item, no_items, no_fields, value_json}

-- A camera is its ID with its connections, and a track is its ID.
abbrev camera_stream : MediaStream (Text × List ℕ) Text
camera_stream = record {
  is_track = λ feed m. text_eq feed m.0;
  match_media = λ t m. (true, t);
  add_connection = λ ref t m. some (m.0, m.1 ++ ref ∷ []);
  remove_connection = λ ref m. m;
  create_media = λ feed m. feed;
  track_id = λ t. t;
}

abbrev front : Text × List ℕ
front = (codes "front", [])

abbrev back : Text × List ℕ
back = (codes "back", 7 ∷ [])

handle_track-decision_example :
    handle_track camera_stream true 3 (codes "front") (back ∷ front ∷ [])
    ≡ some (record {
      medias = back ∷ (codes "front", 3 ∷ []) ∷ [];
      track = codes "front";
      error = ok;
      closes = some 1;
    })
unfolding text_eq
handle_track-decision_example =
    handle_track-decision camera_stream true 3 (codes "front") (back ∷ []) [] front refl (refl, tt)
      tt refl

abbrev one_request : Value
one_request = field (codes "tracks") (item (text (codes "front")) no_items) no_fields

abbrev any_json : JsonOps Value
any_json = record value_json { parse = λ t. some one_request }

abbrev track_post : Request
track_post = record { connection = 3; content_format = some 50; payload = some (codes "{}") }

abbrev accepts : ℕ → List Text → Bool
accepts ref ts = true

abbrev created : TracksOutcome (Text × List ℕ) Text
created = record {
  medias = back ∷ (codes "front", 3 ∷ []) ∷ [];
  added = some (codes "front" ∷ []);
  calls = response 201 [] ∷ request_free ∷ [];
}

post_created :
    handle_tracks camera_stream any_json accepts true track_post (back ∷ front ∷ []) ≡ some created
unfolding handle_tracks text_eq create_feed
post_created = refl

-- A library that takes every text for a token of alice, signed with an RSA key.
abbrev alice_jwt : JwtOps Text Text Text
alice_jwt = record {
  decode = λ t. returned t;
  parse_jwks = λ t. returned t;
  get_key_id = λ d. returned (codes "k1");
  get_jwk = λ ks kid. returned kid;
  get_key_type = λ k. returned (codes "RSA");
  has_jwk_claim = λ k c. true;
  get_jwk_claim = λ k c. returned c;
  decode_base64 = λ t. returned t;
  create_algorithm = λ a. returned a;
  verify = λ v d. returned (is_some v.algorithm);
  get_subject = λ d. returned (codes "alice");
}

abbrev joined_pem : PemOps
joined_pem = record { rsa_pem = λ n e. n ++ e; ec_pem = λ p. p }

abbrev one_user : Iam
one_user = record { find_user = λ s. some s; authorize = λ ref u. true }

abbrev answered : Curl
answered = record {
  created = true;
  set_opt = λ o. true;
  performed = true;
  status = 200;
  pieces = codes "{}" ∷ [];
}

abbrev validator : Validator
validator = record {
  url = codes "https://a";
  issuer = codes "a";
  product_id = codes "pr-1";
  device_id = codes "de-1";
  ca_bundle = none;
}

abbrev token_post : Request
token_post = record { connection = 3; content_format = some 0; payload = some (codes "t") }

token_accepted :
    handle_oauth_request alice_jwt joined_pem one_user answered validator token_post
    ≡ some (answer (response 201 []))
unfolding handle_oauth_request after text_eq
token_accepted = refl

handle_oauth_request-Verified_example :
    (token subject user : Text) × (some (codes "t") ≡ some token)
    × (true ≡ true)
    × (200 ≤ 200)
    × (200 ≤ 299)
    × Verified alice_jwt joined_pem validator (codes "{}") token subject
    × (some subject ≡ some user)
    × (true ≡ true)
handle_oauth_request-Verified_example =
    handle_oauth_request-Verified alice_jwt joined_pem one_user answered validator token_post
      token_accepted

abbrev demo_world : World (Text × List ℕ) Text Value Text Text Text
demo_world = record {
  stream = camera_stream;
  add_tracks = accepts;
  json = any_json;
  jwt = alice_jwt;
  pem = joined_pem;
  iam = one_user;
  curl = answered;
  validator = validator;
  fp = λ f. none;
  create_response = λ c d n. n;
}

Served-AnsweredOnce_example : AnsweredOnce (response 201 [] ∷ request_free ∷ [])
Served-AnsweredOnce_example =
    Served-AnsweredOnce demo_world track_post (response 201 [] ∷ request_free ∷ [])
      (tracks_request true (back ∷ front ∷ []) created post_created)

abbrev rtp_args : Args
rtp_args = record {
  help = false;
  create_key = false;
  product_id = some (codes "pr-1");
  device_id = some (codes "de-1");
  private_key = some (replicate 64 b'0');
  server_url = none;
  home_dir = none;
  log_level = codes "info";
  rtsp = none;
  rtsp_use_udp = false;
  rtp_port = 65535;
  fifo = none;
  fifo_audio = some (codes "/a");
  cloud_domain = codes "b.c";
  iam_reset = false;
  cacert = none;
  disable_repacketizer = true;
}

abbrev two_medias : List MediaConf
two_medias =
    rtp_client (codes "frontdoor-video") 65535 h264 false
    ∷ rtp_client (codes "frontdoor-audio") 1 pcmu false
    ∷ []

abbrev always_starts : DeviceConf → Bool
always_starts d = true

rtp_started :
    run_main (λ path. true) none true none always_starts (some rtp_args) ≡ streaming two_medias
unfolding run_main text_eq
rtp_started = refl

run_main-streams_for_example :
    (d : DeviceConf) × (two_medias ≡ streams_for rtp_args)
    × (false ≡ false)
    × (some (replicate 64 b'0') ≡ some d.raw_private_key)
    × (length d.raw_private_key ≡ 64)
    × (true ≡ true)
    × (always_starts d ≡ true)
run_main-streams_for_example =
    run_main-streams_for (λ path. true) none true none always_starts rtp_args two_medias rtp_started

abbrev key_bytes : List ℕ
key_bytes = replicate 32 171

All-replicate : (n : ℕ) → All IsByte (replicate n 171)
All-replicate zero = tt
All-replicate (suc n) = (omega arith, All-replicate n)

key_bytes-IsByte : All IsByte key_bytes
key_bytes-IsByte = All-replicate 32

keys_agree_example :
    (read_key 32 (to_hex key_bytes) ≡ some key_bytes)
    × (from_hex (to_hex key_bytes) (replicate 32 7) ≡ some (true, key_bytes))
keys_agree_example = keys_agree key_bytes (replicate 32 7) key_bytes-IsByte refl refl
