-- ===== src/Demo/Options.antt =====
-- The command line of the demo program and the media streams that it creates
-- (examples/webrtc-demo/main.cpp), and the options that the device takes (nabto_device.cpp).
pub mod Streams
use edge_device_webrtc.Prelude.{
  ◌&&◌, ◌==◌, ◌%◌, ◌+◌, ◌++◌, not, length, ◌∷◌, ◌||◌, ◌>>=◌, none, if◌then◌else◌, false, [],
  text_eq, some, codes, Text, Option, Bool, List, ℕ,
}

-- What cxxopts has read: the options that have a value, those with a default, and flags.
pub record Args : Type 0 where
  pub help : Bool
  pub create_key : Bool
  pub product_id : Option Text
  pub device_id : Option Text
  pub private_key : Option Text
  pub server_url : Option Text
  pub home_dir : Option Text
  pub log_level : Text
  pub rtsp : Option Text
  pub rtsp_use_udp : Bool
  pub rtp_port : ℕ
  pub fifo : Option Text
  pub fifo_audio : Option Text
  pub cloud_domain : Text
  pub iam_reset : Bool
  pub cacert : Option Text
  pub disable_repacketizer : Bool

-- The JSON object `opts`; a key that is missing is `none`.
pub record Opts : Type 0 where
  pub product_id : Text
  pub device_id : Text
  pub raw_private_key : Text
  pub server_url : Option Text
  pub home_dir : Option Text
  pub log_level : Text
  pub rtsp_url : Option Text
  pub prefer_tcp : Bool
  pub rtp_port : ℕ
  pub fifo_path : Option Text
  pub fifo_audio_path : Option Text
  pub jwks_url : Text
  pub jwks_issuer : Text
  pub frontend_url : Text
  pub iam_reset : Bool
  pub ca_bundle : Option Text
  pub repack_h264 : Bool

abbrev or_else : Option Text → Option Text → Option Text
or_else none o = o
or_else (some t) o = some t

-- The path of the audio file counts with that of the video only.
abbrev both : Option Text → Option Text → Option Text
both none o = none
both (some t) o = o

unfoldable pub valid_log_level : Text → Bool
unfolding text_eq
valid_log_level ll =
    text_eq ll (codes "error") || text_eq ll (codes "info") || text_eq ll (codes "trace")

-- The bundle of certificates, if one is given by the option or the environment.
abbrev pub bundle_missing : (Text → Bool) → Option Text → Bool
bundle_missing exists none = false
bundle_missing exists (some path) = not (exists path)

-- `parsed` is `none` if cxxopts throws, `env` is CURL_CA_BUNDLE, and `exists` tells whether a file can
-- be opened. The result is `none` if the program ends.
unfoldable pub parse_options : (Text → Bool) → Option Text → Option Args → Option Opts
unfolding valid_log_level
parse_options exists env parsed = do
  a ← parsed
  product_id ← if a.help || a.create_key then none else a.product_id
  device_id ← a.device_id
  raw_private_key ← a.private_key
  log_level ← if valid_log_level a.log_level then some a.log_level else none
  if bundle_missing exists (or_else a.cacert env)
      then none
      else some (record {
        product_id = product_id;
        device_id = device_id;
        raw_private_key = raw_private_key;
        server_url = a.server_url;
        home_dir = a.home_dir;
        log_level = log_level;
        rtsp_url = a.rtsp;
        prefer_tcp = not a.rtsp_use_udp;
        rtp_port = a.rtp_port;
        fifo_path = a.fifo;
        fifo_audio_path = both a.fifo a.fifo_audio;
        jwks_url = codes "https://sts." ++ a.cloud_domain ++ codes "/sts/.well-known/jwks.json";
        jwks_issuer = codes "https://sts." ++ a.cloud_domain ++ codes "/sts";
        frontend_url = codes "https://demo." ++ a.cloud_domain;
        iam_reset = a.iam_reset;
        ca_bundle = or_else a.cacert env;
        repack_h264 = not a.disable_repacketizer;
      })

pub data Codec : Type 0 where
  h264 opus pcmu : Codec

-- The configurations of the streams.
pub data MediaConf : Type 0 where
  rtsp_stream : Text → Codec → Codec → Bool → Bool → MediaConf
  fifo_client : Text → Text → Codec → MediaConf
  rtp_client : Text → ℕ → Codec → Bool → MediaConf

-- The inner `catch`: with a path for the audio, its client.
abbrev pub fifo_audio_media : Option Text → List MediaConf
fifo_audio_media none = []
fifo_audio_media (some path) = fifo_client (codes "frontdoor-audio") path pcmu ∷ []

-- The streams over RTP; the negotiator for audio has been replaced before.
abbrev pub rtp_medias : Opts → List MediaConf
rtp_medias o =
    rtp_client (codes "frontdoor-video") o.rtp_port h264 o.repack_h264
    ∷ rtp_client (codes "frontdoor-audio") ((o.rtp_port + 2) % 65536) pcmu false
    ∷ []

unfoldable pub create_medias : Opts → List MediaConf
create_medias o = elim o.rtsp_url [
  | some url ↦ rtsp_stream url h264 opus o.prefer_tcp o.repack_h264 ∷ []
  | none ↦ fifo_audio_media o.fifo_audio_path ++ elim o.fifo_path [
    | some path ↦ fifo_client (codes "frontdoor-video") path h264 ∷ []
    | none ↦ rtp_medias o
  ]
]

-- What `NabtoDeviceApp::init` takes from the options; `none` is the result `false`.
pub record DeviceConf : Type 0 where
  pub product_id : Text
  pub device_id : Text
  pub raw_private_key : Text
  pub ca_bundle : Option Text
  pub server_url : Text
  pub frontend_url : Text
  pub iam_conf_path : Text
  pub iam_state_path : Text
  pub iam_reset : Bool
  pub log_level : Text

abbrev text_or_empty : Option Text → Text
text_or_empty none = []
text_or_empty (some t) = t

abbrev in_home : Option Text → Text → Text
in_home none name = name
in_home (some dir) name = dir ++ codes "/" ++ name

-- `sdk_ok` tells whether the SDK and its IAM module can be set up, and `env` is NABTO_LOG_LEVEL.
unfoldable pub init_device : Bool → Option Text → Opts → Option DeviceConf
init_device sdk_ok env o =
    if length o.raw_private_key == 64 && sdk_ok
    then some (record {
      product_id = o.product_id;
      device_id = o.device_id;
      raw_private_key = o.raw_private_key;
      ca_bundle = o.ca_bundle;
      server_url = text_or_empty o.server_url;
      frontend_url = o.frontend_url;
      iam_conf_path = in_home o.home_dir (codes "iam_config.json");
      iam_state_path = in_home o.home_dir (codes "iam_state.json");
      iam_reset = o.iam_reset;
      log_level = text_or_empty (or_else env (some o.log_level));
    })
    else none

-- How `main` goes on or ends before it creates the library: it returns, uses the device that is not
-- there, or has created the streams.
pub data Started : Type 0 where
  exited failed null_device : Started
  streaming : List MediaConf → Started

-- From the device to the streams; `starts` tells whether `start` of a device is successful. The IAM
-- state is reset and the device stopped without an exception.
unfoldable pub with_device : (DeviceConf → Bool) → Option DeviceConf → Opts → Started
unfolding create_medias
with_device starts none o = if o.iam_reset then null_device else failed
with_device starts (some d) o =
    if o.iam_reset then exited else if starts d then streaming (create_medias o) else failed

unfoldable pub run_main :
    (Text → Bool) → Option Text → Bool → Option Text → (DeviceConf → Bool) → Option Args → Started
unfolding parse_options init_device with_device
run_main exists bundle sdk_ok level starts parsed = elim (parse_options exists bundle parsed) [
  | none ↦ exited
  | some o ↦ with_device starts (init_device sdk_ok level o) o
]
