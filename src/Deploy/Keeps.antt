-- ===== src/Deploy/Keeps.antt =====
-- Every step of a deploy keeps to the protocol of a run.
pub mod Plumbing
pub mod Merge
pub mod Apply
pub mod Steps
pub mod Revert
pub mod Ends
pub mod Body
pub mod Run
pub mod Desk
pub mod Start
pub mod Requests
