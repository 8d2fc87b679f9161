-- ===== src/Demo/Options/Streams.antt =====
-- Which streams a command line of the demo program leads to.
use edge_device_webrtc.Prelude.{
  arith, Option-cases, ◌∙◌, ap, ◌%◌, sym, ◌+◌, refl, inr, ◌||◌, inl, codes, Bool-cases, >>=-eq-some,
  ◌==◌, [], ◌∷◌, length, false, true, not, ◌&&◌, some_injective, ◌≡◌, none, if◌then◌else◌, Text,
  some, Option, Bool, List,
}
use edge_device_webrtc.Demo.Options.{
  failed, null_device, exited, with_device, streaming, run_main, DeviceConf, or_else, rtp_client,
  bundle_missing, valid_log_level, pcmu, fifo_client, opus, h264, rtsp_stream, create_medias, Opts,
  parse_options, init_device, MediaConf, Args,
}

-- The streams for a command line: from an RTSP server if there is a URL, else from files if there is
-- one for the video, and else over RTP.
abbrev pub streams_for : Args → List MediaConf
streams_for a = elim a.rtsp [
  | some url ↦ rtsp_stream url h264 opus (not a.rtsp_use_udp) (not a.disable_repacketizer) ∷ []
  | none ↦ elim a.fifo [
    | some path ↦ elim a.fifo_audio [
      | none ↦ fifo_client (codes "frontdoor-video") path h264 ∷ []
      | some audio ↦
          fifo_client (codes "frontdoor-audio") audio pcmu
          ∷ fifo_client (codes "frontdoor-video") path h264
          ∷ []
    ]
    | none ↦
        rtp_client (codes "frontdoor-video") a.rtp_port h264 (not a.disable_repacketizer)
        ∷ rtp_client (codes "frontdoor-audio") ((a.rtp_port + 2) % 65536) pcmu false
        ∷ []
  ]
]

guarded : (b : Bool) (x o : Opts) → (if b then none else some x) ≡ some o → x ≡ o
guarded true x o h = absurd cc
guarded false x o h = some_injective h

streaming_injective : {ms ns : List MediaConf} → streaming ms ≡ streaming ns → ms ≡ ns
streaming_injective h = cc

-- The options that a command line gives.
parsed_opts :
    (exists : Text → Bool) (bundle : Option Text) (a : Args) (o : Opts)
    → parse_options exists bundle (some a) ≡ some o
    → (create_medias o ≡ streams_for a)
      × (o.iam_reset ≡ a.iam_reset)
      × (a.private_key ≡ some o.raw_private_key)
unfolding parse_options create_medias
parsed_opts exists bundle a o h =
    let (p, hp, h1) = >>=-eq-some (if a.help || a.create_key then none else a.product_id) _ o h in
    let (d, hd, h2) = >>=-eq-some a.device_id _ o h1 in
    let (k, hk, h3) = >>=-eq-some a.private_key _ o h2 in
    let (l, hl, h4) =
      >>=-eq-some (if valid_log_level a.log_level then some a.log_level else none) _ o h3 in
    let same = guarded (bundle_missing exists (or_else a.cacert bundle)) _ o h4 in
    (
      sym (ap create_medias same) ∙ elim (Option-cases a.rtsp) [
        | inr (url, hr) ↦ rw hr refl
        | inl hr ↦ elim (Option-cases a.fifo) [
          | inl hf ↦ rw (hr, hf) refl
          | inr (path, hf) ↦ elim (Option-cases a.fifo_audio) [
            | inl ha ↦ rw (hr, hf, ha) refl
            | inr (audio, ha) ↦ rw (hr, hf, ha) refl
          ]
        ]
      ],
      sym (ap (λ q. q.iam_reset) same),
      hk ∙ ap (λ q. some q.raw_private_key) same,
    )

full_key :
    (sdk_ok : Bool) (level : Option Text) (o : Opts) (d : DeviceConf)
    → init_device sdk_ok level o ≡ some d
    → (length o.raw_private_key ≡ 64) × (d.raw_private_key ≡ o.raw_private_key) × (sdk_ok ≡ true)
unfolding init_device
full_key sdk_ok level o d h = elim (Bool-cases (length o.raw_private_key == 64 && sdk_ok)) [
  | inl ready ↦
      let same = some_injective (rw ready at h) in
      (ground arith, sym (ap (λ c. c.raw_private_key) same), ground arith)
  | inr missing ↦ absurd (let bad : none ≡ some d = rw missing at h in cc)
]

with_device-streaming :
    (starts : DeviceConf → Bool) (dev : Option DeviceConf) (o : Opts) (ms : List MediaConf)
    → with_device starts dev o ≡ streaming ms
    → (d : DeviceConf) × (dev ≡ some d)
      × (o.iam_reset ≡ false)
      × (starts d ≡ true)
      × (ms ≡ create_medias o)
unfolding with_device
with_device-streaming starts none o ms h = elim (Bool-cases o.iam_reset) [
  | inl reset ↦ absurd (let bad : null_device ≡ streaming ms = rw reset at h in cc)
  | inr stays ↦ absurd (let bad : failed ≡ streaming ms = rw stays at h in cc)
]
with_device-streaming starts (some d) o ms h = elim (Bool-cases o.iam_reset) [
  | inl reset ↦ absurd (let bad : exited ≡ streaming ms = rw reset at h in cc)
  | inr stays ↦ elim (Bool-cases (starts d)) [
    | inl up ↦ (d, refl, stays, up, sym (streaming_injective (rw (stays, up) at h)))
    | inr down ↦ absurd (let bad : failed ≡ streaming ms = rw (stays, down) at h in cc)
  ]
]

-- When the program gets as far as its streams, it was not asked to reset IAM, its private key has 64
-- characters, and the device with that key was set up and started; and the streams are one from an
-- RTSP server if there is a URL, else those from files if there is one for the video, else H264
-- over RTP on the port given and PCMU on the port two above it modulo 2 ^ 16.
pub run_main-streams_for :
    (exists : Text → Bool) (bundle : Option Text) (sdk_ok : Bool) (level : Option Text)
    (starts : DeviceConf → Bool) (a : Args) (ms : List MediaConf)
    → run_main exists bundle sdk_ok level starts (some a) ≡ streaming ms
    → (d : DeviceConf) × (ms ≡ streams_for a)
      × (a.iam_reset ≡ false)
      × (a.private_key ≡ some d.raw_private_key)
      × (length d.raw_private_key ≡ 64)
      × (sdk_ok ≡ true)
      × (starts d ≡ true)
unfolding run_main
run_main-streams_for exists bundle sdk_ok level starts a ms h =
    elim (Option-cases (parse_options exists bundle (some a))) [
      | inl ended ↦ absurd (let bad : exited ≡ streaming ms = rw (ended, run_main) at h in cc)
      | inr (o, parsed) ↦
          let (d, made, stays, up, all) =
            with_device-streaming starts (init_device sdk_ok level o) o ms
              (rw (parsed, run_main) at h) in
          let (listed, reset, key) = parsed_opts exists bundle a o parsed in
          let (full, same, ready) = full_key sdk_ok level o d made in
          (
            d,
            all ∙ listed,
            sym reset ∙ stays,
            key ∙ ap some (sym same),
            ap length same ∙ full,
            ready,
            up,
          )
    ]
