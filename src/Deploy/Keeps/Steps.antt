-- ===== src/Deploy/Keeps/Steps.antt =====
-- applyManifest, applyMerged and restorePrevious keep to the protocol of a run.
use snowdeploy.Base.{Text, refl, Option, none, some, Error, Result, ok, err, ==→eq, ◌==◌}
use mathlib.Core.Path.{subst}
use snowdeploy.Manifest.Defs.{Manifest}
use snowdeploy.Reconcile.{restarting, probing}
use snowdeploy.Effect.{RunRequest}
use snowdeploy.Effect.Logic.{Wp, Wp-mono, Wp-if, Wp-bind}
use snowdeploy.Deploy.Engine.{Options, sync_failure}
use snowdeploy.Deploy.Apply.{
  report_phase, after_template, apply_manifest, apply_pinned, apply_synced, apply_merged,
}
use snowdeploy.Deploy.Rollback.{report_restore, restore_template, restore_parsed, restore_previous}
use snowdeploy.Deploy.Protocol.{Watch, Probed}
use snowdeploy.Deploy.Keeps.Plumbing.{protocol, emit-Wp, sync_failure-Wp}
use snowdeploy.Deploy.Keeps.Apply.{Live, Applied, Reports, apply-Wp}

module _ (o : Options) (req : RunRequest) where
  report_phase-Reports : (m : Manifest) → Reports o req (report_phase o req m)
  unfolding report_phase
  report_phase-Reports m restarting Q g open_ q = emit-Wp o req _ _ Q g refl open_ (q _)
  report_phase-Reports m probing Q g open_ q = emit-Wp o req _ _ Q g refl open_ (q _)

  report_restore-Reports : (m : Manifest) → Reports o req (report_restore o req m)
  unfolding report_restore
  report_restore-Reports m restarting Q g open_ q = q g.entry
  report_restore-Reports m probing Q g open_ q = emit-Wp o req _ _ Q g refl open_ (q _)

  module _ (d : Text) where
    pub apply_manifest-Wp :
        (m : Manifest) (g : Watch)
        → Live d g
        → Wp (protocol o req) (apply_manifest o req m) (Applied o d m.image.digest) g
    unfolding apply_manifest after_template
    apply_manifest-Wp m g live = (
      tt,
      elim [
        | err e ↦ live
        | ok tmpl ↦ apply-Wp o req d m (report_phase o req m) (report_phase-Reports m) tmpl g live
      ],
    )

    apply_pinned-Wp :
        (m : Manifest) (raw : Text) (g : Watch)
        → Live d g
        → Wp (protocol o req) (apply_pinned o req (ok (m, raw))) (Applied o d req.new_digest) g
    unfolding apply_pinned
    apply_pinned-Wp m raw g live =
        Wp-if (protocol o req) (m.image.digest == req.new_digest) _ _ (Applied o d req.new_digest) g
          (λ same.
            subst (λ (pin : Text). Wp (protocol o req) (apply_manifest o req m) (Applied o d pin) g)
              (==→eq m.image.digest req.new_digest same) (apply_manifest-Wp m g live))
          (λ differ. live)

    -- The application succeeds only on a manifest that pins what the run asked for.
    pub apply_merged-Wp :
        (g : Watch)
        → Live d g
        → Wp (protocol o req) (apply_merged o req) (Applied o d req.new_digest) g
    unfolding apply_merged apply_synced apply_pinned
    apply_merged-Wp g live = (
      tt,
      elim [
        | err e ↦
            Wp-bind (protocol o req) (sync_failure e) _ (Applied o d req.new_digest) g
              (sync_failure-Wp o req e _ g (λ said. live))
        | ok head ↦ (tt, elim [ err e ↦ live | ok (m, raw) ↦ apply_pinned-Wp m raw g live ])
      ],
    )

    -- Whatever digest a restored host runs, it passed the gates and its probe.
    abbrev pub Restored : Option Error → Watch → Type 0
    Restored none g = Live d g × ((pin : Text) × Probed o pin g.probed)
    Restored (some e) g = Live d g

    restored : (pin : Text) (r : Option Error) (g : Watch) → Applied o d pin r g → Restored r g
    restored pin none g a = (a.0, (pin, a.1))
    restored pin (some e) g a = a

    restore_parsed-Wp :
        (r : Result Manifest) (g : Watch)
        → Live d g
        → Wp (protocol o req) (restore_parsed o req r) Restored g
    unfolding restore_parsed restore_template
    restore_parsed-Wp (err e) g live = live
    restore_parsed-Wp (ok m) g live = (
      tt,
      elim [
        | err e ↦ live
        | ok tmpl ↦
            Wp-mono (protocol o req) _ (Applied o d m.image.digest) Restored g
              (restored m.image.digest)
              (apply-Wp o req d m (report_restore o req m) (report_restore-Reports m) tmpl g live)
      ],
    )

    pub restore_previous-Wp :
        (g : Watch) → Live d g → Wp (protocol o req) (restore_previous o req) Restored g
    unfolding restore_previous
    restore_previous-Wp g live = restore_parsed-Wp _ g live
