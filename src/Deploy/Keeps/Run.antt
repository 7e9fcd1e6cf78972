-- ===== src/Deploy/Keeps/Run.antt =====
-- A whole run keeps to its protocol and ends settled.
use snowdeploy.Base.{Text, ◌≡◌, refl, ◌==◌, true, false, none, Result, ok, err}
use snowdeploy.Manifest.Defs.{Manifest}
use snowdeploy.Journal.Defs.{is_converge, failed}
use snowdeploy.Effect.{RunRequest}
use snowdeploy.Effect.Logic.{Wp, Wp-then, Wp-bind, Wp-if}
use snowdeploy.Deploy.Engine.{Options, emit, fail, sync_failure, lock, lock_merge_queue}
use snowdeploy.Deploy.Run.{run_current, run_locked, run_queued, run_synced, run}
use snowdeploy.Deploy.Protocol.{idle, Watch, IsSettled, started}
use snowdeploy.Deploy.Keeps.Plumbing.{
  protocol, At, emit-Wp, fail-Wp, sync_failure-Wp, lock-Wp, lock_merge_queue-Wp,
}
use snowdeploy.Deploy.Keeps.Apply.{Live}
use snowdeploy.Deploy.Keeps.Ends.{fail-Closed, converge-Wp}
use snowdeploy.Deploy.Keeps.Body.{Done, run_pinned-Wp, run_fresh-Wp}

module _ (o : Options) where
  run_current-Wp :
      (req : RunRequest) (r : Result (Manifest × Text)) (g : Watch)
      → is_converge req.action ≡ false
      → At true req.new_digest g.probed g
      → Wp (protocol o req) (run_current o req r) Done g
  unfolding run_current
  run_current-Wp req (err e) g proposes a =
      (a.2, λ _. fail-Closed o req _ req.new_digest _ (a.0, a.1, refl, a.3, a.4))
  run_current-Wp req (ok (current, raw)) g proposes a =
      Wp-if (protocol o req) (current.image.digest == req.new_digest) _ _ Done g
        (λ same. run_pinned-Wp o req g proposes a)
        (λ differ. run_fresh-Wp o req current raw _ g proposes a)

  run_locked-Wp :
      (req : RunRequest) (g : Watch)
      → Live req.new_digest g
      → Wp (protocol o req) (run_locked o req) Done g
  unfolding run_locked
  run_locked-Wp req g a =
      Wp-if (protocol o req) (is_converge req.action) _ _ Done g
        (λ conv. converge-Wp o req g conv a)
        (λ proposes. Wp-bind (protocol o req) lock_merge_queue _ Done g (
          lock_merge_queue-Wp o req _ g proposes a.1 a.2 a.3
            (tt, λ r. run_current-Wp req r _ proposes (a.0, a.1, refl, refl, a.4, refl))))

  run_queued-Wp :
      (req : RunRequest) (g : Watch)
      → Live req.new_digest g
      → Wp (protocol o req) (run_queued o req none) (λ _ h. IsSettled h) g
  unfolding run_queued
  run_queued-Wp req g a =
      Wp-then (protocol o req) (run_locked o req) _ Done (λ _ h. IsSettled h) g
        (run_locked-Wp req g a)
        (λ _ h c. (
          (refl, c.1, c.2, c.0),
          λ _. record {
            receipt_written = c.0;
            receipt_terminal = c.4;
            service_released = refl;
            merge_released = c.2;
            no_mu_and_not_queued = c.3;
          },
        ))

  -- A run that holds nothing fails settled.
  fail-IsSettled :
      (req : RunRequest) (detail : Text) (g : Watch)
      → g.receipt ≡ false
      → g.service_held ≡ false
      → g.merge_held ≡ false
      → g.stand ≡ idle
      → Wp (protocol o req) (fail o req detail) (λ _ h. IsSettled h) g
  fail-IsSettled req detail g open_ free free_merge calm =
      fail-Wp o req detail _ g open_ free_merge (record {
        receipt_written = refl;
        receipt_terminal = (failed, _, refl, refl);
        service_released = free;
        merge_released = free_merge;
        no_mu_and_not_queued = calm;
      })

  pub run-Wp :
      (req : RunRequest)
      → Wp (protocol o req) (run o req) (λ _ h. IsSettled h) (started req.new_digest)
  unfolding run run_synced run_queued
  run-Wp req =
      Wp-bind (protocol o req) (emit o req _ _) _ (λ _ h. IsSettled h) _
        (emit-Wp o req _ _ _ _ refl refl (
          tt,
          elim [
            | err e ↦
                Wp-bind (protocol o req) (sync_failure e) _ (λ _ h. IsSettled h) _
                  (sync_failure-Wp o req e _ _ (λ said. fail-IsSettled req _ _ refl refl refl refl))
            | ok head ↦
                Wp-bind (protocol o req) (emit o req _ _) _ (λ _ h. IsSettled h) _
                  (emit-Wp o req _ _ _ _ refl refl (
                    Wp-bind (protocol o req) (lock req.service) _ (λ _ h. IsSettled h) _
                      (lock-Wp o req _ _ refl refl refl
                        (run_queued-Wp req _ (refl, refl, refl, refl, refl))
                        (λ e. fail-IsSettled req _ _ refl refl refl refl))))
          ],
        ))
