-- ===== src/Deploy/Outcome.antt =====
-- What the protocol of a run says of the trace of a whole run (`run`, internal/deploy/engine.go), in
-- any world.
pub mod Traces
pub mod Receipts
pub mod Queue
pub mod Proposals
pub mod Start
pub mod Host
