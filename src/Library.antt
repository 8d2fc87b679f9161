-- ===== src/Library.antt =====
-- The library's interface for applications: src/library/api.
pub mod Datachannel
pub mod Track
