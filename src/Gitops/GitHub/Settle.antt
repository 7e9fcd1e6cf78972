-- ===== src/Gitops/GitHub/Settle.antt =====
-- UpdateBranch, Merge and ClosePR of internal/gitops/github.go.
use snowdeploy.Base.{
  ℕ, Text, lit, is_empty, itoa, ◌++◌, Option, none, some, Error, errors_new, Result, ok, err,
  if◌then◌else◌,
}
use snowdeploy.Script.{Script, ret, ◌>>=◌, query}
use snowdeploy.Gitops.GitHub.{ApiError, MergeResult, Query, github, GitHubAppConfig, client, failed}
use snowdeploy.Gitops.GitHub.Refusals.{is_current}

module _ (lower : ℕ → ℕ) where
  unfoldable pub updated : ℕ → Option ApiError → Option Error
  unfolding is_current
  updated n none = none
  updated n (some e) =
      if is_current lower e.kind
      then none
      else some (failed (lit "update branch of pull request " ++ itoa n) e.error)

module _ (a : GitHubAppConfig) (n : ℕ) where
  -- The rest of an operation, behind a client that could be built.
  abbrev pub with_client :
      Script github (Option Error) → Option Error → Script github (Option Error)
  with_client rest (some e) = ret (some e)
  with_client rest none = rest

  unfoldable pub update_branch : (ℕ → ℕ) → Script github (Option Error)
  unfolding updated client
  update_branch lower = do
    e ← client a
    with_client (do answer ← query (Query.update_branch n); ret (updated lower n answer)) e

  unfoldable pub merged : Result MergeResult → Result Text
  merged (err e) = err (failed (lit "merge pull request " ++ itoa n) e)
  merged (ok r) =
      if r.merged
      then ok r.sha
      else err (errors_new (lit "pull request " ++ itoa n ++ lit " did not merge: " ++ r.message))

  abbrev pub merge_over : Option Error → Script github (Result Text)
  merge_over (some e) = ret (err e)
  merge_over none = do r ← query (Query.merge_pr n (lit "squash")); ret (merged r)

  unfoldable pub merge : Script github (Result Text)
  unfolding merged client
  merge = do e ← client a; merge_over e

  abbrev pub closed : Option Error → Option Error
  closed none = none
  closed (some e) = some (failed (lit "close pull request " ++ itoa n) e)

  unfoldable pub close : Script github (Option Error)
  close = do e ← query (Query.edit_pr n (lit "closed")); ret (closed e)

  unfoldable pub commented : Option Error → Script github (Option Error)
  unfolding close
  commented none = close
  commented (some e) = ret (some (failed (lit "comment on pull request " ++ itoa n) e))

  unfoldable pub close_pr : Text → Script github (Option Error)
  unfolding commented client
  close_pr comment = do
    e ← client a
    with_client
        (if is_empty comment then close else (query (Query.create_comment n comment) >>= commented))
        e
