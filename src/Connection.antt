-- ===== src/Connection.antt =====
-- `WebrtcConnection` of src/library/webrtc-connection/webrtc_connection.{hpp,cpp}.
pub mod State
pub mod Metadata
pub mod Sending
pub mod Tracks
pub mod Signals
pub mod Negotiation
pub mod Lifecycle
pub mod Channels
pub mod Coap
pub mod Turn
mod Tests
