-- ===== src/Codec.antt =====
-- libs/st2110core/src/backends/mtl/mtl_worker_ipc_codec.cpp: the bytes of the control messages between
-- the plugin's process and the worker's.
pub mod Writer
pub mod Reader
pub mod Tags
pub mod Stats
pub mod StatsEvent
pub mod Sessions
pub mod ReadSessions
pub mod Rings
pub mod ReadRings
pub mod Requests
pub mod ReadRequests
pub mod Events
pub mod Reading
pub mod RoundTrip
pub mod Prefix
