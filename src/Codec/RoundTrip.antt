-- ===== src/Codec/RoundTrip.antt =====
-- Deserializing undoes serializing.
pub mod Tagged
pub mod Stats
pub mod Sessions
pub mod Rings
pub mod Requests
pub mod Events
