-- ===== src/Deploy/Engine.antt =====
-- internal/deploy/engine.go: the options, and the plumbing that every step uses.
use snowdeploy.Base.{
  ℕ, zero, suc, Text, lit, is_empty, Bool, ◌++◌, Option, none, some, Error, errors_is,
  credential_unavailable, if◌then◌else◌,
}
use snowdeploy.Base.Int.{ℤ, pos, negsuc}
use snowdeploy.Reconcile.{Applier}
use snowdeploy.Journal.Defs.{State, failed}
use snowdeploy.Effect.{Call, Event, RunRequest, Prog, ret, ◌>>=◌, ◌>>◌, perform, skip}

-- The options as the daemon gives them. Durations are nanoseconds. The interfaces among them are
-- the environment, but for the applier.
pub record RawOptions : Type 0 where
  pub applier : Applier
  pub has_notify : Bool
  pub check_poll : ℤ
  pub revert_attempts : ℤ
  pub revert_backoff : ℤ
  pub merge_backoff : ℤ
  pub repo_web_url : Text

-- The options of an engine: what `New` leaves is positive.
pub record Options : Type 0 where
  pub applier : Applier
  pub has_notify : Bool
  pub check_poll : ℕ
  pub revert_attempts : ℕ
  pub revert_backoff : ℕ
  pub merge_backoff : ℕ
  pub repo_web_url : Text

-- `if x <= 0 { x = d }`
unfoldable pub positive_or : ℤ → ℕ → ℕ
positive_or (pos zero) d = d
positive_or (pos (suc n)) d = suc n
positive_or (negsuc n) d = d

unfoldable pub new : RawOptions → Options
new o = record {
  applier = o.applier;
  has_notify = o.has_notify;
  check_poll = positive_or o.check_poll 15000000000;
  revert_attempts = positive_or o.revert_attempts 3;
  revert_backoff = positive_or o.revert_backoff 30000000000;
  merge_backoff = positive_or o.merge_backoff 5000000000;
  repo_web_url = o.repo_web_url;
}

unfoldable pub event : RunRequest → State → Text → Prog Event
event req state detail = do
  at ← perform Call.now
  ret (record {
    service = req.service;
    action = req.action;
    state = state;
    detail = detail;
    journal_id = req.id;
    pr_number = req.pr_number;
    pr_url = req.pr_url;
    merge_url = req.merge_url;
    at = at;
  })

abbrev sync_reason : Option Error → Text
sync_reason none = lit "the configuration repository could not be read"
sync_reason (some r) = r.text

abbrev with_remedy : Error → Text → Text
with_remedy e detail =
    if errors_is e credential_unavailable
    then detail ++ lit "; re-run once the secret store is unsealed"
    else detail

unfoldable pub sync_failure : Error → Prog Text
sync_failure e = do
  (synced, reason) ← perform Call.sync_state
  ret (with_remedy e (sync_reason reason))

module _ (o : Options) where
  abbrev pub notify : Event → Prog Unit
  notify ev = if o.has_notify then perform (Call.notify ev) else skip

  unfoldable pub emit : RunRequest → State → Text → Prog Unit
  unfolding event
  emit req state detail = do
    let full = req.detail_prefix ++ detail
    perform (Call.progress req.id state full)
    ev ← event req state full
    notify ev

  unfoldable pub finish : RunRequest → State → Text → Prog Unit
  unfolding event
  finish req state detail = do
    let full = req.detail_prefix ++ detail
    perform (Call.finish req.id state full)
    ev ← event req state full
    notify ev

  unfoldable pub fail : RunRequest → Text → Prog Unit
  unfolding finish
  fail req detail = finish req failed detail

  -- `RepoWebURL + path`, or no link
  abbrev pub link : Text → Text → Text
  link old path = if is_empty o.repo_web_url then old else o.repo_web_url ++ path

unfoldable pub lock_merge_queue : Prog Unit
lock_merge_queue = do perform Call.queue_enter; perform Call.lock_merge; perform Call.queue_leave

-- The lookup or creation of the service's channel, under mu, is part of `lock_service`.
unfoldable pub lock : Text → Prog (Option Error)
lock service = do
  perform Call.lock_mu
  perform Call.unlock_mu
  perform Call.queue_enter
  e ← perform (Call.lock_service service)
  perform Call.queue_leave
  ret e

-- ClosePR's own error is dropped.
unfoldable pub close_pr : ℕ → Text → Prog Unit
close_pr n comment = do perform (Call.close_pr n comment); skip
