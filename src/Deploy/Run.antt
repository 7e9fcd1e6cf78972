-- ===== src/Deploy/Run.antt =====
-- internal/deploy/engine.go: run, the goroutine of one deploy.
use snowdeploy.Base.{
  ℕ, Text, lit, ◌==◌, itoa, [], ◌++◌, Option, none, some, Error, errors_is, canceled, Result, ok,
  err, if◌then◌else◌,
}
use snowdeploy.Manifest.Defs.{Manifest}
use snowdeploy.Journal.Defs.{State, is_converge}
use snowdeploy.Effect.{Call, RunRequest, Prog, ◌>>=◌, ◌>>◌, perform}
use snowdeploy.Deploy.Digest.{set_digest, action_text, pr_title, pr_body}
use snowdeploy.Deploy.Engine.{
  Options, emit, finish, fail, link, sync_failure, lock, lock_merge_queue, close_pr,
}
use snowdeploy.Deploy.Merge.{merge_through_checks}
use snowdeploy.Deploy.Apply.{apply_merged}
use snowdeploy.Deploy.Rollback.{rollback}
use snowdeploy.Deploy.Converge.{converge}

module _ (o : Options) where
  unfoldable pub run_applied : RunRequest → Option Error → Prog Unit
  run_applied req none =
      finish o req State.healthy (req.service ++ lit " is healthy on " ++ req.new_digest)
  run_applied req (some e) = rollback o req e

  unfoldable pub run_reapply : RunRequest → Prog Unit
  run_reapply req = do
    emit o req State.reconciling (
        lit "main already pins "
        ++ req.new_digest
        ++ lit " but the host does not run it; applying the merged manifest")
    applied ← apply_merged o req
    run_applied req applied

  -- The branch on which main already pins the digest.
  unfoldable pub run_already : RunRequest → Result Text → Prog Unit
  run_already req (ok running) =
      if running == req.new_digest
      then finish o req State.healthy (
          req.service
          ++ lit " was already brought to "
          ++ req.new_digest
          ++ lit " by an earlier deploy; nothing to do")
      else run_reapply req
  run_already req (err e) = run_reapply req

  unfoldable pub run_pinned : RunRequest → Prog Unit
  run_pinned req = do
    running ← perform (Call.running_image req.service)
    perform Call.unlock_merge
    run_already req running

  unfoldable pub run_recorded : RunRequest → Text → Option Error → Prog Unit
  run_recorded req sha (some e) = fail o req (lit "could not record the merge: " ++ e.text)
  run_recorded req sha none = do
    let merged = record req { merge_url = link o req.merge_url (lit "/commit/" ++ sha) }
    emit o merged State.merged (lit "merged as " ++ sha)
    emit o merged State.reconciling (lit "applying the merged manifest")
    applied ← apply_merged o merged
    run_applied merged applied

  unfoldable pub run_merged : RunRequest → ℕ → Result Text → Prog Unit
  run_merged req n (err e) = do
    close_pr n (lit "snowdeploy abandoned this change: " ++ e.text)
    fail o req e.text
  run_merged req n (ok sha) = do e ← perform (Call.set_merge_sha req.id sha); run_recorded req sha e

  unfoldable pub run_opened : RunRequest → ℕ → Option Error → Prog Unit
  run_opened req n (some e) = do
    perform Call.unlock_merge
    fail o req (lit "could not record the pull request: " ++ e.text)
  run_opened req n none = do
    let opened = record req { pr_number = n; pr_url = link o req.pr_url (lit "/pull/" ++ itoa n) }
    emit o opened State.pr_open (lit "pull request #" ++ itoa n ++ lit " opened")
    merged ← merge_through_checks o opened n
    perform Call.unlock_merge
    run_merged opened n merged

  unfoldable pub run_proposed : RunRequest → Result ℕ → Prog Unit
  run_proposed req (err e) = do
    perform Call.unlock_merge
    fail o req (lit "could not open the manifest pull request: " ++ e.text)
  run_proposed req (ok n) = do e ← perform (Call.set_pr req.id n); run_opened req n e

  unfoldable pub run_fresh : RunRequest → Manifest → Text → Result Text → Prog Unit
  run_fresh req current raw (err e) = do
    perform Call.unlock_merge
    fail o req (
        lit "the manifest changed while this deploy was queued; "
        ++ lit "re-run to propose it against the current file")
  run_fresh req current raw (ok fresh) = do
    let req = record req {
      new_content = fresh;
      original_raw = raw;
      old_digest = current.image.digest;
    }
    opened ← perform (
        Call.open_manifest_pr req.service req.new_content
          (pr_title req.action req.service req.new_digest)
          (pr_body req.action req.service req.old_digest req.new_digest))
    run_proposed req opened

  unfoldable pub run_current : RunRequest → Result (Manifest × Text) → Prog Unit
  run_current req (err e) = do
    perform Call.unlock_merge
    fail o req (lit "could not re-read the manifest at the front of the queue: " ++ e.text)
  run_current req (ok (current, raw)) =
      if current.image.digest == req.new_digest
      then run_pinned req
      else run_fresh req current raw (set_digest raw current.image.digest req.new_digest)

  -- What runs between the service's lock and its deferred release.
  unfoldable pub run_locked : RunRequest → Prog Unit
  run_locked req = if is_converge req.action then converge o req else do
    lock_merge_queue
    read ← perform (Call.read_manifest req.service)
    run_current req read

  abbrev abandoned : RunRequest → Error → Text
  abandoned req e =
      (lit "queued " ++ action_text req.action ++ lit " abandoned: " ++ e.text)
      ++ (if errors_is e canceled then lit "; the daemon was restarting; re-run" else [])

  unfoldable pub run_queued : RunRequest → Option Error → Prog Unit
  run_queued req (some e) = fail o req (abandoned req e)
  run_queued req none = do run_locked req; perform (Call.unlock_service req.service)

  unfoldable pub run_synced : RunRequest → Result Text → Prog Unit
  run_synced req (err e) = do said ← sync_failure e; fail o req said
  run_synced req (ok head) = do
    emit o req State.detected (
        if is_converge req.action
        then lit "queued for the service's turn"
        else lit "queued for the merge queue")
    locked ← lock req.service
    run_queued req locked

  unfoldable pub run : RunRequest → Prog Unit
  run req = do
    emit o req State.detected (lit "reading the configuration repository")
    synced ← perform Call.sync
    run_synced req synced
