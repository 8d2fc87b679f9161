-- ===== src/Demo.antt =====
-- The demo program of examples/webrtc-demo.
pub mod Answers
pub mod Challenge
pub mod Coap
pub mod Oauth
pub mod FileStream
pub mod Key
pub mod Options
pub mod Requests
pub mod Streams
mod Tests
pub mod TrackEvent
