-- ===== src/Negotiator.antt =====
-- The track negotiators of src/modules/track-negotiators: which of the offered codecs a media
-- description keeps.
pub mod Media
pub mod Match
pub mod Kept
mod Tests
