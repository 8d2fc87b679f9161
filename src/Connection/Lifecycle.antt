-- ===== src/Connection/Lifecycle.antt =====
-- The callback of `onStateChange` in `createPeerConnection` of webrtc_connection.cpp.
use edge_device_webrtc.Prelude.{none, [], ◌∷◌, false, ℕ, some, if◌then◌else◌, Option, List}
use edge_device_webrtc.Connection.State.{
  peer_close, track_closed, connecting, channel_closed, event, connected, closed, MediaTrack,
  ConnectionState, called, Connection,
}

-- `rtc::PeerConnection::State`; the code asks for three of them.
pub data PeerState : Type 0 where
  peer_connected peer_connecting peer_closed peer_other : PeerState

module _ {J : Type 0} where
  unfoldable pub notify : ConnectionState → Connection J → Connection J
  unfolding called
  notify state s =
      let t = record s { state = state } in if t.handler then called (event state) t else t

  unfoldable pub close_tracks : List MediaTrack → Connection J → Connection J
  unfolding called
  close_tracks [] s = s
  close_tracks (m ∷ ms) s = close_tracks ms (called (track_closed m) s)

  unfoldable pub close_channels : List ℕ → Connection J → Connection J
  unfolding called
  close_channels [] s = s
  close_channels (d ∷ ds) s = close_channels ds (called (channel_closed d) s)

  -- `none` is the call of `close` through a `pc_` that is not set.
  unfoldable pub handle_closed : Connection J → Option (Connection J)
  unfolding notify close_tracks close_channels called
  handle_closed s =
      let t = record (notify closed s) { handler = false } in
      let u = close_channels t.datachannels (close_tracks t.media_tracks t) in
      let v = record u { datachannels = []; coap_channel = false } in
      if v.peer then some (record (called peer_close v) { peer = false }) else none

  unfoldable pub handle_state_change : PeerState → Connection J → Option (Connection J)
  unfolding notify handle_closed
  handle_state_change peer_connected s = some (notify connected s)
  handle_state_change peer_connecting s = some (notify connecting s)
  handle_state_change peer_closed s = handle_closed s
  handle_state_change peer_other s = some s
