-- ===== src/Daemon.antt =====
-- cmd/snowdeployd/main.go: what the daemon does besides wiring its parts.
pub mod Orphans
pub mod Watch
