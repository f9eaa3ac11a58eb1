-- ===== src/Tests.antt =====
-- The theorems at concrete inputs, and runs of the definitions that can be followed in the source.
mod Parse
mod Buffering
mod Video
mod Timing
pub mod Worker
mod Ring
mod Framing
