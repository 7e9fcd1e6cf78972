-- ===== src/Deploy/Keeps/Ends.antt =====
-- The ways in which a deploy ends: rollback and converge write the receipt and keep the locks.
use mathlib.Core.Path.{subst}
use snowdeploy.Base.{
  Text, ◌≡◌, refl, ◌∙◌, sym, ◌⊎◌, inr, ◌==◌, ==→eq, true, false, Option, none, some, Error, ok, err,
}
use snowdeploy.Manifest.Defs.{Manifest}
use snowdeploy.Journal.Defs.{State, is_converge, is_terminal, failed, rolled_back, healthy}
use snowdeploy.Effect.{RunRequest}
use snowdeploy.Effect.Logic.{Wp, Wp-then, Wp-bind, Wp-if}
use snowdeploy.Deploy.Engine.{Options, emit, fail, finish, sync_failure}
use snowdeploy.Deploy.Rollback.{
  clear_trail, restore_previous, revert_main, rollback_reverted, rollback_restored, rollback,
}
use snowdeploy.Deploy.Apply.{apply_manifest}
use snowdeploy.Deploy.Converge.{
  converge_applied, converge_settled, converge_recorded, converge_read, converge_synced, converge,
  pinned_to,
}
use snowdeploy.Deploy.Protocol.{Passed, idle, Watch, Probed}
use snowdeploy.Deploy.Keeps.Plumbing.{protocol, emit-Wp, finish-Wp, fail-Wp, sync_failure-Wp}
use snowdeploy.Deploy.Keeps.Apply.{Live, Applied}
use snowdeploy.Deploy.Keeps.Steps.{apply_manifest-Wp, restore_previous-Wp, Restored}
use snowdeploy.Deploy.Keeps.Revert.{Wp-of_SameRun, Reverted, revert_main-Wp}

-- A receipt is written, and nothing but the service's lock is held.
abbrev pub Closed : Watch → Type 0
Closed g =
    (g.receipt ≡ true)
    × (g.service_held ≡ true)
    × (g.merge_held ≡ false)
    × (g.stand ≡ idle)
    × ((st : State) × (detail : Text) × (g.entry ≡ some (st, detail)) × (is_terminal st ≡ true))

module _ (o : Options) (req : RunRequest) where
  -- A deploy in the service's turn that fails is closed.
  pub fail-Closed :
      (detail d : Text) (g : Watch)
      → Live d g
      → Wp (protocol o req) (fail o req detail) (λ _ h. Closed h) g
  fail-Closed detail d g a =
      fail-Wp o req detail (λ _ h. Closed h) g a.0 a.2
        (refl, a.1, a.2, a.3, (failed, _, refl, refl))

  pub healthy-Closed :
      (detail d : Text) (g : Watch)
      → Live d g
      → (g.running ≡ some g.target) ⊎ Probed o g.target g.probed
      → Wp (protocol o req) (finish o req healthy detail) (λ _ h. Closed h) g
  healthy-Closed detail d g a just =
      finish-Wp o req healthy detail (λ _ h. Closed h) g refl a.0 a.2 just
        (refl, a.1, a.2, a.3, (healthy, _, refl, refl))

module _ (o : Options) (req : RunRequest) (cause : Error) (d : Text) where
  rollback_reverted-Wp :
      (pin : Text) (u : Option Passed) (x : Option Error × RunRequest) (g : Watch)
      → Probed o pin u
      → Reverted d u req x g
      → Wp (protocol o req) (rollback_reverted o req cause x) (λ _ h. Closed h) g
  unfolding rollback_reverted
  rollback_reverted-Wp pin u (e, undo) g good v =
      Wp-of_SameRun o req undo _ (λ _ h. Closed h) g v.1
        (finish-Wp o (record undo { detail_prefix = _ }) rolled_back _ (λ _ h. Closed h) g refl
          v.0.0 v.0.2 (pin, (good.0, v.0.5 ∙ good.1, good.2))
          (refl, v.0.1, v.0.2, v.0.3, (rolled_back, _, refl, refl)))

  rollback_restored-Wp :
      (x : Option Error) (g : Watch)
      → is_converge req.action ≡ false
      → Restored o req d x g
      → Wp (protocol o req) (rollback_restored o req cause x) (λ _ h. Closed h) g
  unfolding rollback_restored fail
  rollback_restored-Wp (some e) g proposes a = fail-Closed o (clear_trail req) _ d g a
  rollback_restored-Wp none g proposes (a, (pin, good)) =
      Wp-then (protocol o req) (revert_main o (clear_trail req)) _
        (Reverted d g.probed (clear_trail req)) (λ _ h. Closed h) g
        (revert_main-Wp o d g.probed (clear_trail req) g proposes (a.0, a.1, a.2, a.3, a.4, refl))
        (λ x h v. rollback_reverted-Wp pin g.probed x h good v)

  pub rollback-Wp :
      (g : Watch)
      → is_converge req.action ≡ false
      → Live d g
      → Wp (protocol o req) (rollback o req cause) (λ _ h. Closed h) g
  unfolding rollback
  rollback-Wp g proposes a =
      Wp-bind (protocol o req) (emit o (clear_trail req) _ _) _ (λ _ h. Closed h) g
        (emit-Wp o (clear_trail req) _ _ _ g refl a.0 (
          Wp-then (protocol o req) (restore_previous o (clear_trail req)) _ (Restored o req d)
            (λ _ h. Closed h) _ (restore_previous-Wp o (clear_trail req) d _ a)
            (λ x h r. rollback_restored-Wp x h proposes r)))

module _ (o : Options) where
  converge_settled-Wp :
      (req : RunRequest) (m : Manifest) (g : Watch)
      → Live m.image.digest g
      → Wp (protocol o req) (converge_settled o req m) (λ _ h. Closed h) g
  unfolding converge_settled converge_applied
  converge_settled-Wp req m g a =
      Wp-bind (protocol o req) (emit o req _ _) _ (λ _ h. Closed h) g
        (emit-Wp o req _ _ _ g refl a.0 (
          Wp-then (protocol o req) (apply_manifest o req m) _
            (Applied o m.image.digest m.image.digest) (λ _ h. Closed h) _
            (apply_manifest-Wp o req m.image.digest m _ a)
            (elim [
              | some e ↦ λ h b. fail-Closed o req _ m.image.digest h b
              | none ↦ λ h b.
                  healthy-Closed o req _ m.image.digest h b.0
                    (inr (subst (λ (t : Text). Probed o t h.probed) (sym b.0.4) b.1))
            ])))

  converge_read-Wp :
      (req : RunRequest) (m : Manifest) (raw : Text) (g : Watch)
      → is_converge req.action ≡ true
      → Live req.new_digest g
      → Wp (protocol o req) (converge_read o req (ok (m, raw))) (λ _ h. Closed h) g
  unfolding converge_read converge_recorded
  converge_read-Wp req m raw g conv a =
      Wp-if (protocol o req) (m.image.digest == req.new_digest) _ _ (λ _ h. Closed h) g
        (λ same.
          converge_settled-Wp (pinned_to o req m) m g
            (a.0, a.1, a.2, a.3, a.4 ∙ sym (==→eq m.image.digest req.new_digest same)))
        (λ differ. (
          (refl, a.0, conv),
          elim [
            | some e ↦ fail-Closed o req _ req.new_digest _ a
            | none ↦ converge_settled-Wp (pinned_to o req m) m _ (a.0, a.1, a.2, a.3, refl)
          ],
        ))

  pub converge-Wp :
      (req : RunRequest) (g : Watch)
      → is_converge req.action ≡ true
      → Live req.new_digest g
      → Wp (protocol o req) (converge o req) (λ _ h. Closed h) g
  unfolding converge converge_synced converge_read
  converge-Wp req g conv a = (
    tt,
    elim [
      | err e ↦
          Wp-bind (protocol o req) (sync_failure e) _ (λ _ h. Closed h) g
            (sync_failure-Wp o req e _ g (λ said. fail-Closed o req _ req.new_digest g a))
      | ok head ↦ (
        tt,
        elim [
          | err e ↦ fail-Closed o req _ req.new_digest g a
          | ok (m, raw) ↦ converge_read-Wp req m raw g conv a
        ],
      )
    ],
  )
