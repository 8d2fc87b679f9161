-- ===== src/Rtsp.antt =====
-- `RtspClient` of src/modules/rtsp-client/rtsp_client.{hpp,cpp}.
pub mod Connections
pub mod Rtcp
pub mod Strings
pub mod Url
pub mod Client
pub mod Describe
pub mod Sdp
pub mod Setup
pub mod Start
mod Authentication
mod Resolve
mod Play
mod Credentials
pub mod Tcp
pub mod Stream
mod Tests
