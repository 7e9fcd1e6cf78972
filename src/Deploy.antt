-- ===== src/Deploy.antt =====
-- internal/deploy: the merge-first state machine.
pub mod Digest
pub mod Drift
pub mod Engine
pub mod Merge
pub mod Apply
pub mod Rollback
pub mod Converge
pub mod Run
pub mod Protocol
pub mod Keeps
pub mod Outcome
pub mod Start
pub mod Rewrite
