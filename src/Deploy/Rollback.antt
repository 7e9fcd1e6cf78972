-- ===== src/Deploy/Rollback.antt =====
-- internal/deploy/engine.go: restorePrevious, revertOnce, revertMain, rollback.
use snowdeploy.Base.{
  ℕ, zero, suc, ◌+◌, ◌*◌, Text, lit, itoa, Bool, true, false, [], ◌++◌, Option, none, some, Error,
  errors_new, wrap, Result, ok, err,
}
use snowdeploy.Manifest.Defs.{Manifest, apply_defaults}
use snowdeploy.Reconcile.{Phase, restarting, probing, apply}
use snowdeploy.Journal.Defs.{State}
use snowdeploy.Effect.{Call, RunRequest, Prog, ret, ◌>>=◌, ◌>>◌, perform, skip}
use snowdeploy.Platform.{Platform}
use snowdeploy.Deploy.Digest.{short_digest}
use snowdeploy.Deploy.Engine.{Options, emit, finish, lock_merge_queue, link}
use snowdeploy.Deploy.Merge.{merge_through_checks}

-- internal/manifest/manifest.go: Parse
abbrev parsed : Result Manifest → Result Manifest
parsed (err e) = err (wrap (lit "parse manifest: " ++ e.text) e)
parsed (ok m) = ok (apply_defaults m)

unfoldable pub parse : Platform → Text → Result Manifest
parse F raw = parsed (F.decode_yaml raw)

abbrev pub clear_trail : RunRequest → RunRequest
clear_trail req = record req { pr_number = 0; pr_url = []; merge_url = [] }

module _ (o : Options) (req : RunRequest) where
  unfoldable pub report_restore : Manifest → Phase → Prog Unit
  report_restore m restarting = skip
  report_restore m probing = emit o req State.probing (lit "probing " ++ m.health.url)

  unfoldable pub restore_template : Manifest → Result Text → Prog (Option Error)
  restore_template m (err e) = ret (some e)
  restore_template m (ok tmpl) = apply o.applier m tmpl (report_restore m)

  unfoldable pub restore_parsed : Result Manifest → Prog (Option Error)
  restore_parsed (err e) = ret (some (wrap (lit "parse the previous manifest: " ++ e.text) e))
  restore_parsed (ok m) = do tmpl ← perform (Call.read_template m.template); restore_template m tmpl

  unfoldable pub restore_previous : Prog (Option Error)
  restore_previous = restore_parsed (parse o.applier.platform req.original_raw)

abbrev as_error : Result Text → Option Error
as_error (ok sha) = none
as_error (err e) = some e

module _ (o : Options) where
  -- The request comes back with the trail of the proposal that was opened.
  unfoldable pub revert_opened : RunRequest → Result ℕ → Prog (Option Error × RunRequest)
  revert_opened req (err e) = do perform Call.unlock_merge; ret (some e, req)
  revert_opened req (ok n) = do
    let opened = record req { pr_number = n; pr_url = link o req.pr_url (lit "/pull/" ++ itoa n) }
    merged ← merge_through_checks o opened n
    perform Call.unlock_merge
    ret (as_error merged, opened)

  unfoldable pub revert_once : RunRequest → Prog (Option Error × RunRequest)
  revert_once req = do
    lock_merge_queue
    opened ← perform (
        Call.open_manifest_pr req.service req.original_raw
          (lit "revert " ++ req.service ++ lit " to " ++ short_digest req.old_digest)
          (lit "Automatic revert: "
            ++ req.service
            ++ lit " failed its health probe on "
            ++ req.new_digest
            ++ lit " and was rolled back to "
            ++ req.old_digest
            ++ lit " on the host. This restores the manifest to what is running."))
    revert_opened req opened

  -- One round of revertMain behind its attempt: stop, or pause and go on by `retry`.
  module _ (attempt : ℕ) (retry : Error → RunRequest → Prog (Option Error × RunRequest)) where
    unfoldable pub revert_paused : Error → RunRequest → Bool → Prog (Option Error × RunRequest)
    revert_paused e req true = ret (some e, req)
    revert_paused e req false = retry e req

    unfoldable pub revert_ctx : Error → RunRequest → Option Error → Prog (Option Error × RunRequest)
    revert_ctx e req (some gone) = ret (some e, req)
    revert_ctx e req none = do
      done ← perform (Call.sleep (o.revert_backoff * attempt))
      revert_paused e req done

    unfoldable pub revert_tried : Option Error × RunRequest → Prog (Option Error × RunRequest)
    revert_tried (none, req) = ret (none, req)
    revert_tried (some e, req) = do gone ← perform Call.ctx_err; revert_ctx e req gone

  unfoldable pub revert_from : ℕ → ℕ → Error → RunRequest → Prog (Option Error × RunRequest)
  revert_from zero attempt last req = ret (
    some (wrap (lit "after " ++ itoa o.revert_attempts ++ lit " attempts: " ++ last.text) last),
    req,
  )
  revert_from (suc left) attempt last req = do
    let cleared = clear_trail req
    emit o cleared State.reconciling
        (lit "attempt " ++ itoa attempt ++ lit " of " ++ itoa o.revert_attempts)
    tried ← revert_once cleared
    revert_tried attempt (revert_from left (attempt + 1)) tried

  unfoldable pub revert_main : RunRequest → Prog (Option Error × RunRequest)
  revert_main req =
      revert_from o.revert_attempts 1 (errors_new [])
        (record req { detail_prefix = lit "reverting main: " })

  module _ (req : RunRequest) (cause : Error) where
    abbrev revert_detail : Option Error → Text
    revert_detail none = lit "; main reverted"
    revert_detail (some e) =
        lit "; main still pins "
        ++ req.new_digest
        ++ lit " and needs a manual revert ("
        ++ e.text
        ++ lit ")"

    unfoldable pub rollback_reverted : Option Error × RunRequest → Prog Unit
    rollback_reverted (e, undo) =
        finish o (record undo { detail_prefix = [] }) State.rolled_back
          ((cause.text ++ lit "; rolled back to " ++ req.old_digest) ++ revert_detail e)

    unfoldable pub rollback_restored : Option Error → Prog Unit
    rollback_restored (some e) =
        finish o (clear_trail req) State.failed
          (cause.text ++ lit "; the automatic rollback also failed: " ++ e.text)
    rollback_restored none = do reverted ← revert_main (clear_trail req); rollback_reverted reverted

    unfoldable pub rollback : Prog Unit
    rollback = do
      emit o (clear_trail req) State.reconciling
          (lit "probe failed; restoring " ++ short_digest req.old_digest ++ lit " on the host")
      restored ← restore_previous o (clear_trail req)
      rollback_restored restored
