-- ===== src/Packetizer/H264/Stream.antt =====
-- `H264Packetizer` of src/modules/rtp-packetizer/h264_packetizer.cpp: the search for separators and
-- what is sent for each NAL unit.
use mathlib.Core.List.{reverse}
use mathlib.Core.Option
use edge_device_webrtc.Packetizer.H264.Nal.{
  make_aud_payload, nal_aud, is_nal_type, is_ps_or_aud, packetize, new_nal, NalUnit,
}
use edge_device_webrtc.Prelude.{
  false, ◌^◌, ◌%◌, true, ◌*◌, take, some, drop, ◌||◌, ◌==◌, ◌-◌, ◌&&◌, zero, not, get_or, find, ◌+◌,
  ◌++◌, suc, none, length, if◌then◌else◌, [], ◌∷◌, ℕ, ltb, Option, List, Text, Bool,
}
use edge_device_webrtc.Packetizer.Library.{Outgoing}

pub record H264 (P : Type 0) : Type 0 where
  pub buffer : Text
  pub last_nal : NalUnit
  -- `rtpConf_->startTimestamp`, `rtpConf_->timestamp` and `start_` (milliseconds).
  pub start_timestamp : ℕ
  pub timestamp : ℕ
  pub start_ms : ℕ
  pub packetizer : P

-- `undefined` is an access outside of a vector; `no_fuel` is no outcome of the code.
pub data Result {ℓ} (A : Type ℓ) : Type ℓ where
  returned : A → Result A
  undefined no_fuel : Result A

-- What one round of the loop does: it returns, or goes on with `isShort`, the state and the packets
-- that it has added.
pub data Round (P : Type 0) : Type 0 where
  finished broken : Round P
  going : Bool → H264 P → List Text → Round P

abbrev pub short_sep : Text
short_sep = 0 ∷ 0 ∷ 1 ∷ []

-- `while (tmp.back() == 0x00) tmp.pop_back();`, over the reversed vector; `none` is `back()` of an
-- empty one.
unfoldable pub strip_front : Text → Option Text
strip_front [] = none
strip_front (b ∷ bs) = let rest = strip_front bs in if b == 0 then rest else some (b ∷ bs)

unfoldable pub strip_zeros : Text → Option Text
unfolding strip_front
strip_zeros tmp = Option.map reverse (strip_front (reverse tmp))

unfoldable pub starts_short : Text → Bool
starts_short buffer = ltb 3 (length buffer) && get_or buffer 2 0 == 1

-- The delimiter that is built in front of a unit `n` that starts an access unit.
unfoldable pub access_unit : NalUnit → NalUnit
access_unit n = record {
  bytes = 0 ∷ 0 ∷ 0 ∷ 1 ∷ 9 ∷ make_aud_payload n ∷ [];
  header = 0;
  should_mark = false;
}

module _ {P : Type 0} (lib : Outgoing P) (now : ℕ) where
  -- `now` is the clock in milliseconds, which does not run backwards.
  unfoldable pub update_timestamp : H264 P → H264 P
  update_timestamp s = record s {
    timestamp = (s.start_timestamp + (now - s.start_ms) * 90) % 2 ^ 32;
  }

  unfoldable pub packetize_last : Bool → H264 P → H264 P × List Text
  unfolding packetize
  packetize_last marked s =
      let nal = record s.last_nal { should_mark = s.last_nal.should_mark || marked } in
      let (packets, p) = packetize (lib.outgoing s.timestamp) nal s.packetizer in
      (record s { packetizer = p; last_nal = nal }, packets)

  -- The last unit is sent, and `nal` becomes the last one. Behind a long separator that starts an
  -- access unit the packets are marked; where `nal` is no delimiter they are inserted twice, and the
  -- delimiter that is built is overwritten.
  unfoldable pub take_nal : Bool → NalUnit → H264 P → H264 P × List Text
  unfolding packetize_last update_timestamp
  take_nal is_short nal s =
      if not is_short && not (is_ps_or_aud s.last_nal)
      then (let (sent, packets) = packetize_last true s in
          let t = update_timestamp sent in
          if is_nal_type nal_aud nal
          then (record t { last_nal = nal }, packets)
          else (let delimited = record t { last_nal = access_unit nal } in
              (record delimited { last_nal = nal }, packets ++ packets)))
      else (let (sent, packets) = packetize_last false s in
          (record sent { last_nal = nal }, packets))

  -- A unit ends at `it`, in front of the zero that a long separator has more.
  unfoldable pub cut : Bool → ℕ → H264 P → Round P
  unfolding take_nal strip_zeros new_nal
  cut is_short found s =
      let long = get_or s.buffer (found - 1) 1 == 0 in
      let it = if long then found - 1 else found in
      let begin_ = if is_short then 3 else 4 in
      if ltb it begin_
      then broken
      else elim (strip_zeros (take (it - begin_) (drop begin_ s.buffer))) [
        | none ↦ broken
        | some bytes ↦ elim (new_nal bytes) [
          | none ↦ broken
          | some nal ↦
              let (t, packets) = take_nal is_short nal s in
              going (not long) (record t { buffer = drop it s.buffer }) packets
        ]
      ]

  unfoldable pub h264_round : Bool → H264 P → Round P
  unfolding cut
  h264_round is_short s =
      if ltb (length s.buffer) 4 then broken else elim (find short_sep (drop 4 s.buffer)) [
        | none ↦ finished
        | some k ↦ cut is_short (4 + k) s
      ]

  unfoldable pub h264_loop : ℕ → Bool → List Text → H264 P → Result (H264 P × List Text)
  h264_loop zero is_short ret s = no_fuel
  h264_loop (suc fuel) is_short ret s = elim (h264_round is_short s) [
    | finished ↦ returned (s, ret)
    | broken ↦ undefined
    | going next t packets ↦ h264_loop fuel next (ret ++ packets) t
  ]

  unfoldable pub h264_incoming : Text → H264 P → Result (H264 P × List Text)
  unfolding h264_loop starts_short
  h264_incoming bytes s =
      let t = record s { buffer = s.buffer ++ bytes } in
      h264_loop (suc (length t.buffer)) (starts_short t.buffer) [] t
