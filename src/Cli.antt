-- ===== src/Cli.antt =====
-- cmd/snowdeploy: the command line client.
pub mod Follow
pub mod Client
pub mod Commands
pub mod Validate
