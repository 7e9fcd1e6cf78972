-- ===== src/Deploy/Keeps/Body.antt =====
-- What a run does at the front of its queue keeps to its protocol.
use snowdeploy.Base.{
  ℕ, Text, ◌≡◌, refl, inl, inr, ap, ◌∙◌, sym, ◌==◌, ==→eq, true, false, Option, none, some, Error,
  Result, ok, err,
}
use snowdeploy.Manifest.Defs.{Manifest}
use snowdeploy.Journal.Defs.{is_converge}
use snowdeploy.Effect.{RunRequest, ◌>>=◌}
use snowdeploy.Effect.Logic.{Wp, Wp-then, Wp-bind, Wp-if}
use snowdeploy.Deploy.Engine.{Options, emit, close_pr}
use snowdeploy.Deploy.Merge.{merge_through_checks}
use snowdeploy.Deploy.Apply.{apply_merged}
use snowdeploy.Deploy.Run.{
  run_applied, run_reapply, run_already, run_pinned, run_recorded, run_merged, run_opened,
  run_proposed, run_fresh,
}
use snowdeploy.Deploy.Protocol.{Passed, Watch}
use snowdeploy.Deploy.Keeps.Plumbing.{protocol, At, emit-Wp, close_pr-Wp}
use snowdeploy.Deploy.Keeps.Merge.{Merged, merge_through_checks-Wp}
use snowdeploy.Deploy.Keeps.Apply.{Live, Applied}
use snowdeploy.Deploy.Keeps.Steps.{apply_merged-Wp}
use snowdeploy.Deploy.Keeps.Ends.{Closed, fail-Closed, healthy-Closed, rollback-Wp}

abbrev pub Done : Unit {0} → Watch → Type 0
Done _ g = Closed g

module _ (o : Options) where
  pub run_applied-Wp :
      (req : RunRequest) (x : Option Error) (g : Watch)
      → is_converge req.action ≡ false
      → Applied o req.new_digest req.new_digest x g
      → Wp (protocol o req) (run_applied o req x) Done g
  unfolding run_applied
  run_applied-Wp req none g proposes (a, (u, at, good)) =
      healthy-Closed o req _ req.new_digest g a
        (inr (u, at, (good.0, good.1, good.2, good.3, good.4, good.5 ∙ sym a.4, good.6, good.7)))
  run_applied-Wp req (some e) g proposes a = rollback-Wp o req e req.new_digest g proposes a

  pub apply_and_finish-Wp :
      (req : RunRequest) (g : Watch)
      → is_converge req.action ≡ false
      → Live req.new_digest g
      → Wp (protocol o req) (apply_merged o req >>= run_applied o req) Done g
  apply_and_finish-Wp req g proposes a =
      Wp-then (protocol o req) (apply_merged o req) (run_applied o req)
        (Applied o req.new_digest req.new_digest) Done g (apply_merged-Wp o req req.new_digest g a)
        (λ x h b. run_applied-Wp req x h proposes b)

  pub run_reapply-Wp :
      (req : RunRequest) (g : Watch)
      → is_converge req.action ≡ false
      → Live req.new_digest g
      → Wp (protocol o req) (run_reapply o req) Done g
  unfolding run_reapply
  run_reapply-Wp req g proposes a =
      Wp-bind (protocol o req) (emit o req _ _) _ Done g
        (emit-Wp o req _ _ _ g refl a.0 (apply_and_finish-Wp req _ proposes a))

  pub run_already-Wp :
      (req : RunRequest) (running : Text) (g : Watch)
      → is_converge req.action ≡ false
      → Live req.new_digest g
      → g.running ≡ some running
      → Wp (protocol o req) (run_already o req (ok running)) Done g
  unfolding run_already
  run_already-Wp req running g proposes a seen =
      Wp-if (protocol o req) (running == req.new_digest) _ _ Done g
        (λ same.
          healthy-Closed o req _ req.new_digest g a
            (inl (seen ∙ ap some (==→eq running req.new_digest same ∙ sym a.4))))
        (λ differ. run_reapply-Wp req g proposes a)

  pub run_pinned-Wp :
      (req : RunRequest) (g : Watch)
      → is_converge req.action ≡ false
      → At true req.new_digest g.probed g
      → Wp (protocol o req) (run_pinned o req) Done g
  unfolding run_pinned run_already
  run_pinned-Wp req g proposes a = (
    (refl, a.0),
    elim [
      | ok running ↦
          (a.2, λ _. run_already-Wp req running _ proposes (a.0, a.1, refl, a.3, a.4) refl)
      | err e ↦ (a.2, λ _. run_reapply-Wp req _ proposes (a.0, a.1, refl, a.3, a.4))
    ],
  )

  pub run_merged-Wp :
      (req : RunRequest) (n : ℕ) (r : Result Text) (u : Option Passed) (g : Watch)
      → is_converge req.action ≡ false
      → Merged req.new_digest u n r g
      → Wp (protocol o req) (run_merged o req n r) Done (record g { merge_held = false })
  unfolding run_merged run_recorded
  run_merged-Wp req n (err e) u g proposes m = Wp-bind (protocol o req) (close_pr n _) _ Done _ (
      close_pr-Wp o req n _ _ _ m.1
        (fail-Closed o req _ req.new_digest _ (m.0.0, m.0.1, refl, m.0.3, m.0.4)))
  run_merged-Wp req n (ok sha) u g proposes m = (
    (refl, m.0.0),
    elim [
      | some e ↦ fail-Closed o req _ req.new_digest _ (m.0.0, m.0.1, refl, m.0.3, m.0.4)
      | none ↦ Wp-bind (protocol o req) (emit o (record req { merge_url = _ }) _ _) _ Done _ (
          emit-Wp o (record req { merge_url = _ }) _ _ _ _ refl m.0.0
            (Wp-bind (protocol o req) (emit o (record req { merge_url = _ }) _ _) _ Done _ (
              emit-Wp o (record req { merge_url = _ }) _ _ _ _ refl m.0.0
                (apply_and_finish-Wp (record req { merge_url = _ }) _ proposes
                  (m.0.0, m.0.1, refl, m.0.3, m.0.4)))))
    ],
  )

  pub run_opened-Wp :
      (req : RunRequest) (n : ℕ) (x : Option Error) (u : Option Passed) (g : Watch)
      → is_converge req.action ≡ false
      → At true req.new_digest u g
      → g.proposal ≡ some n
      → Wp (protocol o req) (run_opened o req n x) Done g
  unfolding run_opened
  run_opened-Wp req n (some e) u g proposes a p =
      (a.2, λ _. fail-Closed o req _ req.new_digest _ (a.0, a.1, refl, a.3, a.4))
  run_opened-Wp req n none u g proposes a p =
      Wp-bind (protocol o req) (emit o (record req { pr_number = n; pr_url = _ }) _ _) _ Done g (
        emit-Wp o (record req { pr_number = n; pr_url = _ }) _ _ _ g refl a.0
          (Wp-then (protocol o req)
            (merge_through_checks o (record req { pr_number = n; pr_url = _ }) n) _
            (Merged req.new_digest u n) Done _
            (merge_through_checks-Wp o (record req { pr_number = n; pr_url = _ }) req.new_digest u n
              _ a p)
            (λ r h m. (
              m.0.2,
              λ _. run_merged-Wp (record req { pr_number = n; pr_url = _ }) n r u h proposes m,
            ))))

  pub run_fresh-Wp :
      (req : RunRequest) (current : Manifest) (raw : Text) (r : Result Text) (g : Watch)
      → is_converge req.action ≡ false
      → At true req.new_digest g.probed g
      → Wp (protocol o req) (run_fresh o req current raw r) Done g
  unfolding run_fresh run_proposed
  run_fresh-Wp req current raw (err e) g proposes a =
      (a.2, λ _. fail-Closed o req _ req.new_digest _ (a.0, a.1, refl, a.3, a.4))
  run_fresh-Wp req current raw (ok fresh) g proposes a = (
    (refl, a.2),
    elim [
      | err e ↦ (
        a.2,
        λ _.
            fail-Closed o
              (record req {
                new_content = fresh;
                original_raw = raw;
                old_digest = current.image.digest;
              })
              _ req.new_digest _ (a.0, a.1, refl, a.3, a.4),
      )
      | ok n ↦ (
        (refl, a.0, refl),
        λ x.
            run_opened-Wp
              (record req {
                new_content = fresh;
                original_raw = raw;
                old_digest = current.image.digest;
              })
              n x g.probed _ proposes a refl,
      )
    ],
  )
