-- ===== src/Deploy/Keeps/Merge.antt =====
-- mergeThroughChecks keeps to the protocol of a run: it merges nothing but the proposal that it was
-- given, each time behind checks that passed.
use snowdeploy.Base.{
  ℕ, zero, suc, ◌+◌, Text, ◌≡◌, refl, Bool, true, false, Option, none, some, Error, Result, ok, err,
}
use snowdeploy.Effect.{RunRequest, Prog}
use snowdeploy.Effect.Logic.{Wp, Wp-then}
use snowdeploy.Deploy.Engine.{Options, emit}
use snowdeploy.Deploy.Merge.{
  merge_through_checks, merge_from, after_checks, after_merge, after_ctx, after_update,
  after_backoff, merge_attempts,
}
use snowdeploy.Deploy.Protocol.{Passed, Watch}
use snowdeploy.Deploy.Keeps.Plumbing.{protocol, At, emit-Wp}

abbrev IsOpen : Result Text → ℕ → Watch → Type 0
IsOpen (ok sha) n g = Unit
IsOpen (err e) n g = g.proposal ≡ some n

-- The facts of a running deploy stay, and after an error the proposal is still the open one.
abbrev pub Merged : Text → Option Passed → ℕ → Result Text → Watch → Type 0
Merged d u n r g = At true d u g × IsOpen r n g

module _ (o : Options) (req : RunRequest) (d : Text) (u : Option Passed) (n : ℕ) where
  module _ (retry : Error → Prog (Result Text))
      (again : (e : Error) (g : Watch)
        → At true d u g
        → g.proposal ≡ some n
        → Wp (protocol o req) (retry e) (Merged d u n) g) where
    after_merge-Wp :
        (r : Result Text) (g : Watch)
        → At true d u g
        → IsOpen r n g
        → Wp (protocol o req) (after_merge o n retry r) (Merged d u n) g
    unfolding after_merge after_ctx after_update after_backoff
    after_merge-Wp (ok sha) g a p = (a, tt)
    after_merge-Wp (err e) g a p = (
      tt,
      elim [
        | some gone ↦ (a, p)
        | none ↦ (
          (a.2, p),
          elim [ some f ↦ (a, p) | none ↦ (tt, elim [ true ↦ (a, p) | false ↦ again e _ a p ]) ],
        )
      ],
    )

    after_checks-Wp :
        (r : Result (Bool × Text)) (g : Watch)
        → At true d u g
        → g.proposal ≡ some n
        → ((detail : Text) → r ≡ ok (true, detail) → g.passed ≡ true)
        → Wp (protocol o req) (after_checks o n retry r) (Merged d u n) g
    unfolding after_checks
    after_checks-Wp (err e) g a p c = (a, p)
    after_checks-Wp (ok (false, detail)) g a p c = (a, p)
    after_checks-Wp (ok (true, detail)) g a p c = (
      (a.2, p, c detail refl),
      elim [ ok sha ↦ after_merge-Wp (ok sha) _ a tt | err e ↦ after_merge-Wp (err e) _ a p ],
    )

  merge_from-Wp :
      (left attempt : ℕ) (last : Error) (g : Watch)
      → At true d u g
      → g.proposal ≡ some n
      → Wp (protocol o req) (merge_from o req n left attempt last) (Merged d u n) g
  unfolding merge_from
  merge_from-Wp zero attempt last g a p = (a, p)
  merge_from-Wp (suc left) attempt last g a p =
      Wp-then (protocol o req) (emit o req _ _) _ (λ _ h. At true d u h × (h.proposal ≡ some n))
        (Merged d u n) g (emit-Wp o req _ _ _ g refl a.0 (a, p))
        (λ _ h k. (
          (k.0.2, k.1),
          elim [
            | ok (passed, detail) ↦
                after_checks-Wp (merge_from o req n left (attempt + 1))
                  (merge_from-Wp left (attempt + 1)) (ok (passed, detail)) _ k.0 k.1
                  (λ detail' e. cc)
            | err e ↦
                after_checks-Wp (merge_from o req n left (attempt + 1))
                  (merge_from-Wp left (attempt + 1)) (err e) _ k.0 k.1 (λ detail' e. cc)
          ],
        ))

  pub merge_through_checks-Wp :
      (g : Watch)
      → At true d u g
      → g.proposal ≡ some n
      → Wp (protocol o req) (merge_through_checks o req n) (Merged d u n) g
  unfolding merge_through_checks
  merge_through_checks-Wp g a p = merge_from-Wp merge_attempts 1 _ g a p
