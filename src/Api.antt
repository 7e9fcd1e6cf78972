-- ===== src/Api.antt =====
-- internal/api: who may ask for what, and what the event stream delivers.
pub mod Tokens
pub mod Grants
pub mod Accepts
pub mod Bearers
pub mod Proxy
pub mod Boundary
pub mod Broker
pub mod Streams
pub mod Server
pub mod Guard
pub mod Reads
pub mod Snapshots
pub mod Metrics
pub mod Frames
