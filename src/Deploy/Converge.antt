-- ===== src/Deploy/Converge.antt =====
-- internal/deploy/engine.go: converge.
use snowdeploy.Base.{
  Text, lit, ◌==◌, ◌++◌, Option, none, some, Error, Result, ok, err, if◌then◌else◌,
}
use snowdeploy.Manifest.Defs.{Manifest}
use snowdeploy.Journal.Defs.{State}
use snowdeploy.Effect.{Call, RunRequest, Prog, ◌>>=◌, ◌>>◌, perform}
use snowdeploy.Deploy.Digest.{short_digest}
use snowdeploy.Deploy.Engine.{Options, emit, finish, fail, sync_failure}
use snowdeploy.Deploy.Apply.{apply_manifest}

module _ (o : Options) where
  unfoldable pub converge_applied : RunRequest → Option Error → Prog Unit
  converge_applied req (some e) = fail o req (
      e.text
      ++ lit "; a converge has no previous unit to restore — fix the manifest "
      ++ lit "and converge again, or deploy a known-good digest")
  converge_applied req none =
      finish o req State.healthy (req.service ++ lit " converged; healthy on " ++ req.new_digest)

  -- `req` carries the pin of `m` by now.
  unfoldable pub converge_settled : RunRequest → Manifest → Prog Unit
  converge_settled req m = do
    emit o req State.reconciling
        (lit "re-rendering the merged manifest, still pinned to " ++ short_digest m.image.digest)
    applied ← apply_manifest o req m
    converge_applied req applied

  abbrev pub pinned_to : RunRequest → Manifest → RunRequest
  pinned_to req m = record req { old_digest = m.image.digest; new_digest = m.image.digest }

  unfoldable pub converge_recorded : RunRequest → Manifest → Option Error → Prog Unit
  converge_recorded req m (some e) = fail o req (
      lit "the pin moved to "
      ++ m.image.digest
      ++ lit " while queued and the journal could not record it: "
      ++ e.text)
  converge_recorded req m none = converge_settled (pinned_to req m) m

  unfoldable pub converge_read : RunRequest → Result (Manifest × Text) → Prog Unit
  converge_read req (err e) =
      fail o req (lit "could not re-read the manifest at the front of the queue: " ++ e.text)
  converge_read req (ok (m, raw)) =
      if m.image.digest == req.new_digest then converge_settled (pinned_to req m) m else do
        e ← perform (Call.set_digests req.id m.image.digest m.image.digest)
        converge_recorded req m e

  unfoldable pub converge_synced : RunRequest → Result Text → Prog Unit
  converge_synced req (err e) = do
    said ← sync_failure e
    fail o req (lit "sync merged state: " ++ said)
  converge_synced req (ok head) = do
    read ← perform (Call.read_manifest req.service)
    converge_read req read

  unfoldable pub converge : RunRequest → Prog Unit
  converge req = do synced ← perform Call.sync; converge_synced req synced
