-- ===== src/Gitops/GitHub/Refusals.antt =====
-- Which refusals of GitHub the client takes for an answer (internal/gitops/github.go).
use snowdeploy.Base.{
  ℕ, Text, lit, contains, eqb, any, map, Bool, true, false, ◌&&◌, ◌||◌, Option, none, some, arith,
  ◌≡◌,
}
use snowdeploy.Gitops.GitHub.{Kind, accepted, other, response}

abbrev pub is_unprocessable : Option ℕ → Bool
is_unprocessable none = false
is_unprocessable (some status) = eqb status 422

pub is_unprocessable-422 : (status : Option ℕ) → is_unprocessable status ≡ true → status ≡ some 422
is_unprocessable-422 none h = cc
is_unprocessable-422 (some n) h = ground arith

module _ (lower : ℕ → ℕ) where
  -- strings.Contains(strings.ToLower(message), part)
  abbrev pub says : Text → Text → Bool
  says part message = contains (map lower message) part

  unfoldable pub is_already_exists : Kind → Bool
  is_already_exists accepted = false
  is_already_exists other = false
  is_already_exists (response status message errors) =
      is_unprocessable status
      && (says (lit "already exists") message || any (λ m. says (lit "already exists") m) errors)

  -- The two answers of UpdateBranch that are no failures.
  unfoldable pub is_current : Kind → Bool
  is_current accepted = true
  is_current other = false
  is_current (response status message errors) =
      is_unprocessable status && says (lit "no new commits") message
