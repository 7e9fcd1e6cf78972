-- ===== src/Deploy/Merge.antt =====
-- internal/deploy/engine.go: mergeThroughChecks, under the merge lock of its caller.
use snowdeploy.Base.{
  ℕ, zero, suc, ◌+◌, Text, lit, itoa, eqb, Bool, true, false, [], ◌++◌, Option, none, some, Error,
  errors_new, wrap, Result, ok, err, if◌then◌else◌,
}
use snowdeploy.Journal.Defs.{checks}
use snowdeploy.Effect.{Call, RunRequest, Prog, ret, ◌>>=◌, ◌>>◌, perform}
use snowdeploy.Deploy.Engine.{Options, emit}

abbrev pub merge_attempts : ℕ
merge_attempts = 3

abbrev attempt_detail : ℕ → Text
attempt_detail attempt =
    if eqb attempt 1
    then lit "waiting for the configuration repository's checks"
    else lit "main moved underneath the proposal; branch updated, re-running checks (attempt "
      ++ itoa attempt
      ++ lit " of "
      ++ itoa merge_attempts
      ++ lit ")"

-- Two errors wrapped in one message.
abbrev both : Error → Error → Error
both e f = record {
  text = lit "merge failed (" ++ e.text ++ lit ") and the branch could not be updated: " ++ f.text;
  chain = e.chain ++ f.chain;
}

abbrev merge_failed : Error → Result Text
merge_failed e = err (wrap (lit "merge failed: " ++ e.text) e)

module _ (o : Options) (n : ℕ) (retry : Error → Prog (Result Text)) where
  unfoldable pub after_backoff : Error → Bool → Prog (Result Text)
  after_backoff last true = ret (merge_failed last)
  after_backoff last false = retry last

  unfoldable pub after_update : Error → Option Error → Prog (Result Text)
  after_update e (some f) = ret (err (both e f))
  after_update e none = do done ← perform (Call.sleep o.merge_backoff); after_backoff e done

  unfoldable pub after_ctx : Error → Option Error → Prog (Result Text)
  after_ctx e (some gone) = ret (merge_failed e)
  after_ctx e none = do f ← perform (Call.update_branch n); after_update e f

  unfoldable pub after_merge : Result Text → Prog (Result Text)
  after_merge (ok sha) = ret (ok sha)
  after_merge (err e) = do gone ← perform Call.ctx_err; after_ctx e gone

  unfoldable pub after_checks : Result (Bool × Text) → Prog (Result Text)
  after_checks (err e) = ret (err (wrap (lit "checks could not be read: " ++ e.text) e))
  after_checks (ok (false, detail)) =
      ret (err (errors_new (detail ++ lit "; see pull request #" ++ itoa n)))
  after_checks (ok (true, detail)) = do merged ← perform (Call.merge n); after_merge merged

module _ (o : Options) (req : RunRequest) (n : ℕ) where
  -- The loop, with the attempts that are left, the number of the next one and `lastErr`.
  unfoldable pub merge_from : ℕ → ℕ → Error → Prog (Result Text)
  merge_from zero attempt last = ret (
      err (
        wrap (lit "merge failed after " ++ itoa merge_attempts ++ lit " attempts: " ++ last.text)
          last))
  merge_from (suc left) attempt last = do
    emit o req checks (attempt_detail attempt)
    r ← perform (Call.wait_checks n o.check_poll)
    after_checks o n (merge_from left (attempt + 1)) r

  -- `lastErr` is nil before the first attempt, which is always made.
  unfoldable pub merge_through_checks : Prog (Result Text)
  merge_through_checks = merge_from merge_attempts 1 (errors_new [])
