-- ===== src/Gitops/GitHub/Propose.antt =====
-- OpenManifestPR of internal/gitops/github.go, with branchFor, blobSHA and openPRForBranch.
use snowdeploy.Base.{
  ℕ, zero, suc, Text, lit, is_empty, take, eqb, Bool, true, false, List, [], ◌∷◌, ◌++◌, Option,
  none, some, Error, Result, ok, err, if◌then◌else◌,
}
use snowdeploy.Script.{Script, ret, ◌>>=◌, query}
use snowdeploy.Gitops.Names.{check_name}
use snowdeploy.Gitops.GitHub.{
  ApiError, Contents, blob, no_file, unread, Opened, opened, unopened, Query, github,
  GitHubAppConfig, client, manifest_path, failed,
}
use snowdeploy.Gitops.GitHub.Refusals.{is_already_exists}

unfoldable pub branch_for : (Text → Text) → Text → Text → Text
branch_for sha256_hex service content =
    lit "snowdeploy/" ++ service ++ lit "-" ++ take 12 (sha256_hex content)

abbrev is_not_found : Option ℕ → Bool
is_not_found none = false
is_not_found (some status) = eqb status 404

-- The SHA of the file on the branch, empty if it has none.
unfoldable pub blob_sha : Text → Contents → Result Text
blob_sha path (blob sha) = ok sha
blob_sha path no_file = ok []
blob_sha path (unread status e) =
    if is_not_found status then ok [] else err (failed (lit "read " ++ path) e)

unfoldable pub first_listed : Text → Result (List ℕ) → Result ℕ
first_listed branch (err e) = err (failed (lit "list open pull requests for " ++ branch) e)
first_listed branch (ok []) = ok 0
first_listed branch (ok (n ∷ ns)) = ok n

abbrev pub adopted_or : Error → Result ℕ → Result ℕ
adopted_or e (err f) = err (failed (lit "open pull request") e)
adopted_or e (ok zero) = err (failed (lit "open pull request") e)
adopted_or e (ok (suc n)) = ok (suc n)

module _ (a : GitHubAppConfig) where
  unfoldable pub open_pr_for_branch : Text → Script github (Result ℕ)
  unfolding first_listed
  open_pr_for_branch branch = do
    prs ← query (Query.list_prs (a.owner ++ lit ":" ++ branch) a.base_branch)
    ret (first_listed branch prs)

module _ (lower : ℕ → ℕ) (a : GitHubAppConfig) where
  unfoldable pub adopt : Text → Error → Script github (Result ℕ)
  unfolding open_pr_for_branch
  adopt branch e = do found ← open_pr_for_branch a branch; ret (adopted_or e found)

  unfoldable pub proposed : Text → Opened → Script github (Result ℕ)
  unfolding is_already_exists adopt
  proposed branch (opened n) = ret (ok n)
  proposed branch (unopened e) =
      if is_already_exists lower e.kind
      then adopt branch e.error
      else ret (err (failed (lit "open pull request") e.error))

module _ (quote : Text → Text) (sha256_hex : Text → Text) (lower : ℕ → ℕ) (a : GitHubAppConfig)
    (service content title body : Text) where
  abbrev pub branch : Text
  branch = branch_for sha256_hex service content

  abbrev pub file_path : Text
  file_path = manifest_path a service

  unfoldable pub written : Option Error → Script github (Result ℕ)
  unfolding proposed
  written (some e) = ret (err (failed (lit "write " ++ file_path) e))
  written none = do
    pr ← query (Query.create_pr title branch a.base_branch body)
    proposed lower a branch pr

  abbrev sha_given : Text → Option Text
  sha_given sha = if is_empty sha then none else some sha

  unfoldable pub located : Result Text → Script github (Result ℕ)
  unfolding written
  located (err e) = ret (err e)
  located (ok sha) = do
    e ← query (Query.create_file file_path title content branch (sha_given sha))
    written e

  unfoldable pub branched : Bool → Option ApiError → Script github (Result ℕ)
  unfolding located blob_sha
  branched false (some e) = ret (err (failed (lit "create branch " ++ branch) e.error))
  branched _ _ = do
    file ← query (Query.get_contents file_path branch)
    located (blob_sha file_path file)

  -- err == nil || isAlreadyExists(err)
  abbrev pub tolerated : Option ApiError → Bool
  tolerated none = true
  tolerated (some e) = is_already_exists lower e.kind

  unfoldable pub based : Result Text → Script github (Result ℕ)
  unfolding branched is_already_exists
  based (err e) = ret (err (failed (lit "read base ref " ++ a.base_branch) e))
  based (ok sha) = do
    e ← query (Query.create_ref (lit "refs/heads/" ++ branch) sha)
    branched (tolerated e) e

  unfoldable pub connected : Option Error → Script github (Result ℕ)
  unfolding based
  connected (some e) = ret (err e)
  connected none = do base ← query (Query.get_ref (lit "heads/" ++ a.base_branch)); based base

  unfoldable pub named : Option Error → Script github (Result ℕ)
  unfolding connected client
  named (some e) = ret (err e)
  named none = do e ← client a; connected e

  unfoldable pub open_manifest_pr : Script github (Result ℕ)
  unfolding named check_name
  open_manifest_pr = named (check_name quote service)
