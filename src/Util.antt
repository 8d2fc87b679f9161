-- ===== src/Util.antt =====
-- src/modules/util: hexadecimal texts, URL decoding and the asynchronous HTTP request.
pub mod Hex
pub mod Url
pub mod Curl
mod Tests
