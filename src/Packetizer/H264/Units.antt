-- ===== src/Packetizer/H264/Units.antt =====
-- What src/modules/rtp-packetizer/h264_packetizer.cpp sends where an access unit starts.
use edge_device_webrtc.Packetizer.H264.Nal.{nal_aud, is_nal_type, is_ps_or_aud, NalUnit}
use edge_device_webrtc.Packetizer.H264.Stream.{packetize_last, H264, update_timestamp, take_nal}
use edge_device_webrtc.Prelude.{
  refl, inr, inl, Bool-cases, ◌++◌, if◌then◌else◌, true, false, ◌≡◌, ℕ,
}
use edge_device_webrtc.Packetizer.Library.{Outgoing}

module _ {P : Type 0} (lib : Outgoing P) (now : ℕ) where
  -- Behind a long separator, and behind a unit that is no parameter set or delimiter, the last unit's
  -- marked packets are returned twice where the new unit is no delimiter, and once where it is one;
  -- the new unit becomes the last one, so that the delimiter that was built is never sent.
  take_nal-access_unit :
      (nal : NalUnit) (s : H264 P)
      → is_ps_or_aud s.last_nal ≡ false
      → let packets = (packetize_last lib now true s).1 in
        ((take_nal lib now false nal s).1
          ≡ (if is_nal_type nal_aud nal then packets else packets ++ packets))
        × ((take_nal lib now false nal s).0.last_nal ≡ nal)
  unfolding take_nal update_timestamp
  take_nal-access_unit nal s h = elim (Bool-cases (is_nal_type nal_aud nal)) [
    | inl aud ↦ rw (h, aud) (refl, refl)
    | inr other ↦ rw (h, other) (refl, refl)
  ]
