-- ===== src/Tests.antt =====
-- Runs at concrete inputs, and the theorems applied to them.
mod World
mod Manifests
mod Deploys
mod Runs
mod Journals
mod Access
mod Services
mod Gitops
mod Daemon
mod Cli
mod Streamed
