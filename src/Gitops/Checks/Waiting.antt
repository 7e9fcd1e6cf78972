-- ===== src/Gitops/Checks/Waiting.antt =====
-- WaitChecks ends, and what it answers (internal/gitops/github.go).
use snowdeploy.Base.{
  ℕ, ◌≤◌, ◌<◌, Text, ◌≡◌, refl, ap, ◌∙◌, inl, inr, Bool, true, false, Option, none, some, Error,
  Result, ok, err, Bool-cases, arith,
}
use snowdeploy.Base.Int.{ℤ}
use snowdeploy.Polling.{Stopped, stopped, stops, goes, poll_loop_ends, poll_loop_reaches}
use snowdeploy.Gitops.Checks.{
  CheckRuns, Summary, summarize_checks, poll_or_default, Answers, Waited, paused, summarized,
  listed, headed, wait_round, wait_checks,
}
use snowdeploy.Gitops.Checks.Runs.{Passes, Fails, Waits, IsSummary}
use snowdeploy.Gitops.Checks.Verdict.{summarize_checks-IsVerdict, Waits-IsVerdict}

-- The check runs of the head commit that a round sees.
pub record Sees (P : Option CheckRuns → Type 0) (r : Answers) : Type 0 where
  pub sha : Text
  pub runs : Option CheckRuns
  pub head : r.head ≡ ok sha
  pub seen : r.runs sha ≡ ok runs
  pub are : P runs

-- An answer with no error is the verdict on the runs that its round saw.
pub record IsAnswer (r : Answers) (w : Waited) : Type 0 where
  pub green : w.passed ≡ true → (w.failure ≡ none) × Sees Passes r
  pub red : w.passed ≡ false → w.failure ≡ none → Sees Fails r

abbrev IsSummaryOf : Answers → Bool → Bool → Type 0
IsSummaryOf r true true = Sees Passes r
IsSummaryOf r true false = Sees Fails r
IsSummaryOf r false passed = Unit

seen-IsSummaryOf :
    (r : Answers) (sha : Text) (runs : Option CheckRuns)
    → r.head ≡ ok sha
    → r.runs sha ≡ ok runs
    → (done passed : Bool) → IsSummary runs done passed
    → IsSummaryOf r done passed
seen-IsSummaryOf r sha runs h k true true s = record {
  sha = sha;
  runs = runs;
  head = h;
  seen = k;
  are = s;
}
seen-IsSummaryOf r sha runs h k true false s = record {
  sha = sha;
  runs = runs;
  head = h;
  seen = k;
  are = s;
}
seen-IsSummaryOf r sha runs h k false passed s = tt

failing-IsAnswer :
    (r : Answers) (detail : Text) (e : Error)
    → IsAnswer r (record { passed = false; detail = detail; failure = some e })
failing-IsAnswer r detail e = record { green = λ h. cc; red = λ h k. cc }

module _ (quote : Text → Text) (n : ℕ) where
  paused-IsAnswer : (r : Answers) (o : Option Error) → Stopped (IsAnswer r) (paused quote n o)
  paused-IsAnswer r none = tt
  paused-IsAnswer r (some e) = failing-IsAnswer r _ _

  summarized-IsAnswer :
      (r : Answers) (s : Summary) (o : Option Error)
      → (IsSummaryOf r s.done s.passed)
      → Stopped (IsAnswer r) (summarized quote n s o)
  summarized-IsAnswer r s o h = of_flags s.done s.passed h
    where
      of_flags :
          (done passed : Bool)
          → IsSummaryOf r done passed
          → Stopped (IsAnswer r) (summarized quote n (record s { done = done; passed = passed }) o)
      of_flags false passed h = paused-IsAnswer r o
      of_flags true true h = record { green = λ e. (refl, h); red = λ e. cc }
      of_flags true false h = record { green = λ e. cc; red = λ e k. h }

  wait_round-IsAnswer : (r : Answers) → Stopped (IsAnswer r) (wait_round quote n r)
  unfolding wait_round
  wait_round-IsAnswer r = of_head r.head refl
    where
      of_runs :
          (sha : Text) (q : Result (Option CheckRuns))
          → r.head ≡ ok sha
          → r.runs sha ≡ q
          → Stopped (IsAnswer r) (listed quote n sha q r.ended)
      of_runs sha (err e) h k = failing-IsAnswer r _ _
      of_runs sha (ok runs) h k =
          summarized-IsAnswer r (summarize_checks quote runs) r.ended
            (seen-IsSummaryOf r sha runs h k _ _ (summarize_checks-IsVerdict quote runs).says)

      of_head : (q : Result Text) → r.head ≡ q → Stopped (IsAnswer r) (headed quote n q r)
      of_head (err e) h = failing-IsAnswer r _ _
      of_head (ok sha) h = of_runs sha (r.runs sha) h refl

  -- A round goes on only if the context did not end.
  paused-goes : (o : Option Error) (u : Unit {0}) → paused quote n o ≡ goes u → o ≡ none
  paused-goes none u h = refl
  paused-goes (some e) u h = cc

  wait_round-goes : (r : Answers) (u : Unit {0}) → wait_round quote n r ≡ goes u → r.ended ≡ none
  unfolding wait_round
  wait_round-goes r u = of_head r.head
    where
      of_summary : (s : Summary) → summarized quote n s r.ended ≡ goes u → r.ended ≡ none
      of_summary s h = elim (Bool-cases s.done) [
        | inl done ↦ cc (rw done at h)
        | inr going ↦ paused-goes r.ended u (rw going at h)
      ]

      of_runs :
          (sha : Text) (q : Result (Option CheckRuns))
          → listed quote n sha q r.ended ≡ goes u
          → r.ended ≡ none
      of_runs sha (err e) h = cc
      of_runs sha (ok runs) h = of_summary (summarize_checks quote runs) h

      of_head : (q : Result Text) → headed quote n q r ≡ goes u → r.ended ≡ none
      of_head (err e) h = cc
      of_head (ok sha) h = of_runs sha (r.runs sha) h

  -- WaitChecks returns no later than the round in which its context ends. It says that the checks
  -- passed only if one round saw runs of the head commit that are all completed and acceptable, and
  -- that they failed only if one saw a completed run that is not; else it answers an error.
  pub wait_checks-returns :
      (poll : ℤ) (answers : ℕ → ℕ → Answers) (m : ℕ) (e : Error)
      → (answers (poll_or_default poll) m).ended ≡ some e
      → (fuel : ℕ) → m < fuel
      → (w : Waited) × (wait_checks quote n none poll answers fuel ≡ some w)
        × ((k : ℕ) × (k ≤ m) × IsAnswer (answers (poll_or_default poll) k) w)
  unfolding wait_checks
  wait_checks-returns poll answers m e ended fuel enough =
      poll_loop_ends (λ k u. wait_round quote n (answers (poll_or_default poll) k)) (λ k u. Unit)
        (λ k w. IsAnswer (answers (poll_or_default poll) k) w) (λ k u v p h. tt)
        (λ k u w p h.
          stopped (IsAnswer (answers (poll_or_default poll) k)) _ w h
            (wait_round-IsAnswer (answers (poll_or_default poll) k)))
        m (λ u v h. cc (wait_round-goes (answers (poll_or_default poll) m) v h)) fuel 0 tt
        (omega arith) (omega arith) tt

  seen-summarized :
      {P : Option CheckRuns → Type 0} (r : Answers) (s : Sees P r)
      → wait_round quote n r ≡ summarized quote n (summarize_checks quote s.runs) r.ended
  unfolding wait_round
  seen-summarized r s =
      ap (λ (q : Result Text). headed quote n q r) s.head
      ∙ ap (λ (q : Result (Option CheckRuns)). listed quote n s.sha q r.ended) s.seen

  seen-goes : (r : Answers) → Sees Waits r → r.ended ≡ none → wait_round quote n r ≡ goes tt
  seen-goes r s live =
      seen-summarized r s
      ∙ waiting (summarize_checks quote s.runs) r.ended
          (Waits-IsVerdict s.runs _ (summarize_checks-IsVerdict quote s.runs) s.are) live
    where
      waiting :
          (v : Summary) (o : Option Error)
          → v.done ≡ false
          → o ≡ none
          → summarized quote n v o ≡ goes tt
      waiting v o h k = rw (h, k) refl

  seen-stops :
      (r : Answers) (s : Sees Passes r)
      → wait_round quote n r
        ≡ stops (record {
          passed = true;
          detail = (summarize_checks quote s.runs).detail;
          failure = none;
        })
  seen-stops r s =
      seen-summarized r s
      ∙ passing (summarize_checks quote s.runs) r.ended
          ((summarize_checks-IsVerdict quote s.runs).passes_iff.1 s.are)
    where
      passing :
          (v : Summary) (o : Option Error)
          → (v.done ≡ true) × (v.passed ≡ true)
          → summarized quote n v o
            ≡ stops (record { passed = true; detail = v.detail; failure = none })
      passing v o h = rw (h.0, h.1) refl

  -- If the runs of some round pass, and in each round before it they say to wait and the context
  -- goes on, then WaitChecks says that the checks passed.
  pub wait_checks-passes :
      (poll : ℤ) (answers : ℕ → ℕ → Answers) (m : ℕ)
      → ((k : ℕ)
          → k < m
          → Sees Waits (answers (poll_or_default poll) k)
            × ((answers (poll_or_default poll) k).ended ≡ none))
      → Sees Passes (answers (poll_or_default poll) m)
      → (fuel : ℕ) → m < fuel
      → (w : Waited) × (wait_checks quote n none poll answers fuel ≡ some w)
        × (w.passed ≡ true)
        × (w.failure ≡ none)
  unfolding wait_checks
  wait_checks-passes poll answers m before passes fuel enough = (
    record { passed = true; detail = _; failure = none },
    poll_loop_reaches (λ k u. wait_round quote n (answers (poll_or_default poll) k)) m _
        (λ k u lt.
          (tt, seen-goes (answers (poll_or_default poll) k) (before k lt).0 (before k lt).1))
        (λ u. seen-stops (answers (poll_or_default poll) m) passes) fuel 0 tt (omega arith)
        (omega arith),
    refl,
    refl,
  )
