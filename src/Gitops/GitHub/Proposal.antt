-- ===== src/Gitops/GitHub/Proposal.antt =====
-- OpenManifestPR keeps to its scope (internal/gitops/github.go).
use snowdeploy.Base.{ℕ, Text}
use snowdeploy.Script.{Contract}
use snowdeploy.Gitops.GitHub.{github, GitHubAppConfig}
use snowdeploy.Gitops.GitHub.Propose.{branch_for}
use snowdeploy.Gitops.GitHub.Scope.{scope}

module _ (quote : Text → Text) (sha256_hex : Text → Text) (lower : ℕ → ℕ) (a : GitHubAppConfig)
    (service content title body : Text) where
  abbrev S : Contract github
  S = scope sha256_hex lower a service content

  abbrev own : Text
  own = branch_for sha256_hex service content
