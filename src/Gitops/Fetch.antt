-- ===== src/Gitops/Fetch.antt =====
-- fetchAndReset of internal/gitops/repo.go, with openOrClone and auth, as scripts of the calls of
-- go-git and of the configured TokenFn.
pub mod Scope
use snowdeploy.Base.{
  Text, lit, has_prefix, Bool, true, false, not, ◌||◌, ◌++◌, Option, none, some, Error, Sentinel,
  errors_is, wrap, Result, ok, err, if◌then◌else◌,
}
use snowdeploy.Script.{Language, Script, ret, ◌>>=◌, ◌>>◌, query}
use snowdeploy.Gitops.Mirror.{RepoConfig, Repo}

pub data Query : Type 0 where
  -- cfg.TokenFn; git.PlainOpen of a directory
  token_fn : Query
  plain_open : Text → Query
  -- git.PlainClone: directory, URL, password, branch
  clone : Text → Text → Option Text → Text → Query
  -- Repository.Fetch: a branch, with a password; Reference of its remote branch; Worktree
  fetch : Option Text → Text → Query
  reference : Text → Query
  worktree : Query
  -- Worktree.Reset to a commit, and Clean
  reset : Text → Query
  clean : Query

abbrev pub Reply : Query → Type 0
Reply token_fn = Result Text
Reply (plain_open dir) = Option Error
Reply (clone dir url password branch) = Option Error
Reply (fetch password branch) = Option Error
Reply (reference branch) = Result Text
Reply worktree = Option Error
Reply (reset commit) = Option Error
Reply clean = Option Error

abbrev pub git : Language
git = record { Query = Query; Reply = Reply }

abbrev failed : Text → Error → Error
failed prefix e = wrap (prefix ++ lit ": " ++ e.text) e

module _ (cfg : RepoConfig) where
  abbrev pub password_of : Result Text → Result (Option Text)
  password_of (ok token) = ok (some token)
  password_of (err e) = err e

  -- The password of the BasicAuth, or no auth at all.
  unfoldable pub auth : Script git (Result (Option Text))
  auth =
      if not cfg.token_fn || not (has_prefix cfg.url (lit "http"))
      then ret (ok none)
      else (do token ← query token_fn; ret (password_of token))

  abbrev pub cloned : Option Error → Option Error
  cloned none = none
  cloned (some e) = some (failed (lit "clone " ++ cfg.url) e)

  abbrev pub clone_with : Result (Option Text) → Script git (Option Error)
  clone_with (err e) = ret (some e)
  clone_with (ok password) = do
    e ← query (clone cfg.cache_dir cfg.url password cfg.branch)
    ret (cloned e)

  abbrev pub opened_or : Option Error → Script git (Option Error)
  opened_or none = ret none
  opened_or (some e) =
      if errors_is e Sentinel.repository_not_exists
      then auth >>= clone_with
      else ret (some (failed (lit "open cache " ++ cfg.cache_dir) e))

  unfoldable pub open_or_clone : Script git (Option Error)
  unfolding auth
  open_or_clone = do e ← query (plain_open cfg.cache_dir); opened_or e

  abbrev pub cleaned : Text → Option Error → Result Text
  cleaned commit none = ok commit
  cleaned commit (some e) = err (failed (lit "clean worktree") e)

  abbrev pub reset_done : Text → Option Error → Script git (Result Text)
  reset_done commit (some e) = ret (err (failed (lit "reset to origin/" ++ cfg.branch) e))
  reset_done commit none = do e ← query clean; ret (cleaned commit e)

  abbrev pub worktree_opened : Text → Option Error → Script git (Result Text)
  worktree_opened commit (some e) = ret (err (failed (lit "open worktree") e))
  worktree_opened commit none = do e ← query (reset commit); reset_done commit e

  abbrev pub resolved : Result Text → Script git (Result Text)
  resolved (err e) = ret (err (failed (lit "resolve origin/" ++ cfg.branch) e))
  resolved (ok commit) = do e ← query worktree; worktree_opened commit e

  abbrev resolve : Script git (Result Text)
  resolve = do commit ← query (reference cfg.branch); resolved commit

  abbrev pub fetched : Option Error → Script git (Result Text)
  fetched none = resolve
  fetched (some e) =
      if errors_is e Sentinel.already_up_to_date
      then resolve
      else ret (err (failed (lit "fetch " ++ cfg.branch) e))

  abbrev pub fetch_with : Result (Option Text) → Script git (Result Text)
  fetch_with (err e) = ret (err e)
  fetch_with (ok password) = do e ← query (fetch password cfg.branch); fetched e

  abbrev pub opened : Option Error → Script git (Result Text)
  opened (some e) = ret (err e)
  opened none = auth >>= fetch_with

  unfoldable pub fetch_and_reset : Script git (Result Text)
  unfolding open_or_clone auth
  fetch_and_reset = do e ← open_or_clone; opened e
