-- ===== src/Deploy/Apply.antt =====
-- internal/deploy/engine.go: applyManifest and applyMerged.
use snowdeploy.Base.{
  Text, lit, ◌==◌, ◌++◌, Option, some, Error, errors_new, Result, ok, err, if◌then◌else◌,
}
use snowdeploy.Manifest.Defs.{Manifest}
use snowdeploy.Reconcile.{Phase, restarting, probing, apply}
use snowdeploy.Journal.Defs.{State}
use snowdeploy.Effect.{Call, RunRequest, Prog, ret, ◌>>=◌, perform}
use snowdeploy.Deploy.Engine.{Options, emit, sync_failure}

module _ (o : Options) (req : RunRequest) where
  unfoldable pub report_phase : Manifest → Phase → Prog Unit
  report_phase m restarting =
      emit o req State.reconciling (lit "restarting " ++ req.service ++ lit " (pulling image)")
  report_phase m probing = emit o req State.probing (lit "probing " ++ m.health.url)

  unfoldable pub after_template : Manifest → Result Text → Prog (Option Error)
  after_template m (err e) = ret (some e)
  after_template m (ok tmpl) = apply o.applier m tmpl (report_phase m)

  unfoldable pub apply_manifest : Manifest → Prog (Option Error)
  apply_manifest m = do tmpl ← perform (Call.read_template m.template); after_template m tmpl

  unfoldable pub apply_pinned : Result (Manifest × Text) → Prog (Option Error)
  apply_pinned (err e) = ret (some e)
  apply_pinned (ok (m, raw)) =
      if m.image.digest == req.new_digest
      then apply_manifest m
      else ret (
          some (
            errors_new (
              lit "merged manifest pins "
              ++ m.image.digest
              ++ lit ", not the requested "
              ++ req.new_digest)))

  unfoldable pub apply_synced : Result Text → Prog (Option Error)
  apply_synced (err e) = do
    said ← sync_failure e
    ret (some (errors_new (lit "sync merged state: " ++ said)))
  apply_synced (ok head) = do read ← perform (Call.read_manifest req.service); apply_pinned read

  unfoldable pub apply_merged : Prog (Option Error)
  apply_merged = do synced ← perform Call.sync; apply_synced synced
