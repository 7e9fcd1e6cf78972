-- ===== src/Deploy/Keeps/Revert.antt =====
-- revertMain keeps to the protocol of a run: each attempt holds the merge lock for its own proposal
-- only, and what the host runs is left alone.
use mathlib.Core.Path.{subst}
use snowdeploy.Base.{
  ℕ, zero, suc, ◌+◌, Text, ◌≡◌, refl, ap, ◌∙◌, true, false, Option, none, some, Error, ok, err,
}
use snowdeploy.Journal.Defs.{is_converge, Action}
use snowdeploy.Effect.{RunRequest, Prog}
use snowdeploy.Effect.Logic.{Wp, Wp-then, Wp-bind, Wp-mono}
use snowdeploy.Deploy.Engine.{Options, emit, lock_merge_queue}
use snowdeploy.Deploy.Merge.{merge_through_checks}
use snowdeploy.Deploy.Rollback.{
  clear_trail, revert_opened, revert_once, revert_tried, revert_ctx, revert_paused, revert_from,
  revert_main,
}
use snowdeploy.Deploy.Protocol.{Passed, Watch, run_protocol}
use snowdeploy.Deploy.Keeps.Plumbing.{protocol, At, emit-Wp, lock_merge_queue-Wp}
use snowdeploy.Deploy.Keeps.Merge.{Merged, merge_through_checks-Wp}

-- The two requests belong to one run.
abbrev pub SameRun : RunRequest → RunRequest → Type 0
SameRun r r' = (r'.id ≡ r.id) × (r'.service ≡ r.service) × (r'.action ≡ r.action)

-- Requests of one run have one protocol.
pub Wp-of_SameRun :
    (o : Options) (r r' : RunRequest) {A : Type 0} (p : Prog A) (Q : A → Watch → Type 0) (g : Watch)
    → SameRun r r'
    → Wp (protocol o r') p Q g
    → Wp (protocol o r) p Q g
Wp-of_SameRun o r r' p Q g same w =
    subst (λ (i : ℕ). Wp (run_protocol o i r.service (is_converge r.action)) p Q g) same.0
      (subst (λ (s : Text). Wp (run_protocol o r'.id s (is_converge r.action)) p Q g) same.1
        (subst (λ (a : Action). Wp (run_protocol o r'.id r'.service (is_converge a)) p Q g) same.2
          w))

abbrev pub Reverted : Text → Option Passed → RunRequest → Option Error × RunRequest → Watch → Type 0
Reverted d u r x g = At false d u g × SameRun r x.1

module _ (o : Options) (d : Text) (u : Option Passed) where
  revert_opened-Wp :
      (r : RunRequest) (n : ℕ) (g : Watch)
      → At true d u g
      → g.proposal ≡ some n
      → Wp (protocol o r) (revert_opened o r (ok n)) (Reverted d u r) g
  unfolding revert_opened
  revert_opened-Wp r n g a p =
      Wp-then (protocol o r) (merge_through_checks o _ n) _ (Merged d u n) (Reverted d u r) g
        (merge_through_checks-Wp o (record r { pr_number = n; pr_url = _ }) d u n g a p)
        (λ x h m. (m.0.2, λ _. ((m.0.0, m.0.1, refl, m.0.3, m.0.4, m.0.5), (refl, refl, refl))))

  revert_once-Wp :
      (r : RunRequest) (g : Watch)
      → is_converge r.action ≡ false
      → At false d u g
      → Wp (protocol o r) (revert_once o r) (Reverted d u r) g
  unfolding revert_once revert_opened
  revert_once-Wp r g proposes a = Wp-bind (protocol o r) lock_merge_queue _ (Reverted d u r) g (
      lock_merge_queue-Wp o r _ g proposes a.1 a.2 a.3 (
        (refl, refl),
        elim [
          | ok n ↦ revert_opened-Wp r n _ (a.0, a.1, refl, refl, a.4, a.5) refl
          | err e ↦ (refl, λ _. ((a.0, a.1, refl, refl, a.4, a.5), (refl, refl, refl)))
        ],
      ))

  revert_tried-Wp :
      (r : RunRequest) (attempt : ℕ) (retry : Error → RunRequest → Prog (Option Error × RunRequest))
      → ((e : Error) (r' : RunRequest) (g : Watch)
          → SameRun r r'
          → At false d u g
          → Wp (protocol o r) (retry e r') (Reverted d u r) g)
      → (x : Option Error × RunRequest) (g : Watch) → Reverted d u r x g
      → Wp (protocol o r) (revert_tried o attempt retry x) (Reverted d u r) g
  unfolding revert_tried revert_ctx revert_paused
  revert_tried-Wp r attempt retry again (none, r') g v = v
  revert_tried-Wp r attempt retry again (some e, r') g v =
      (tt, elim [ some gone ↦ v | none ↦ (tt, elim [ true ↦ v | false ↦ again e r' _ v.1 v.0 ]) ])

  -- What holds of a request holds of another of the same run.
  Reverted-of_SameRun :
      (r r' : RunRequest) (x : Option Error × RunRequest) (g : Watch)
      → SameRun r r'
      → Reverted d u r' x g
      → Reverted d u r x g
  Reverted-of_SameRun r r' x g same v = (v.0, (v.1.0 ∙ same.0, v.1.1 ∙ same.1, v.1.2 ∙ same.2))

  revert_from-Wp :
      (left attempt : ℕ) (last : Error) (r : RunRequest) (g : Watch)
      → is_converge r.action ≡ false
      → At false d u g
      → Wp (protocol o r) (revert_from o left attempt last r) (Reverted d u r) g
  unfolding revert_from
  revert_from-Wp zero attempt last r g proposes a = (a, (refl, refl, refl))
  revert_from-Wp (suc left) attempt last r g proposes a =
      Wp-bind (protocol o r) (emit o (clear_trail r) _ _) _ (Reverted d u r) g (
        emit-Wp o (clear_trail r) _ _ _ g refl a.0 (
          Wp-then (protocol o r) (revert_once o (clear_trail r)) _ (Reverted d u r) (Reverted d u r)
            _ (revert_once-Wp (clear_trail r) _ proposes a)
            (revert_tried-Wp r attempt (revert_from o left (attempt + 1)) (λ e r' h same b.
              Wp-of_SameRun o r r' _ (Reverted d u r) h same (
                Wp-mono (protocol o r') _ (Reverted d u r') (Reverted d u r) h
                  (λ x k. Reverted-of_SameRun r r' x k same)
                  (revert_from-Wp left (attempt + 1) e r' h (ap is_converge same.2 ∙ proposes)
                    b))))))

  pub revert_main-Wp :
      (r : RunRequest) (g : Watch)
      → is_converge r.action ≡ false
      → At false d u g
      → Wp (protocol o r) (revert_main o r) (Reverted d u r) g
  unfolding revert_main
  revert_main-Wp r g proposes a =
      revert_from-Wp o.revert_attempts 1 _ (record r { detail_prefix = _ }) g proposes a
