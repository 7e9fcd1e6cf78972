-- ===== src/Gitops.antt =====
-- internal/gitops: the mirror of the configuration repository (repo.go), and the client that
-- proposes manifests to GitHub (github.go).
pub mod Names
pub mod Mirror
pub mod Fetch
pub mod GitHub
pub mod Checks
pub mod Services
