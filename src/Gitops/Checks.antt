-- ===== src/Gitops/Checks.antt =====
-- summarizeChecks and WaitChecks of internal/gitops/github.go.
pub mod Runs
pub mod Verdict
pub mod Waiting
use snowdeploy.Base.{
  ℕ, zero, suc, Text, lit, ◌==◌, itoa, eqb, Bool, true, false, ◌||◌, List, [], ◌∷◌, ◌++◌, Option,
  none, some, Error, wrap, Result, ok, err, if◌then◌else◌,
}
use snowdeploy.Base.Int.{ℤ, pos, negsuc}
use snowdeploy.Polling.{Round, stops, goes, poll_loop}

pub record CheckRun : Type 0 where
  pub name : Text
  pub status : Text
  pub conclusion : Text

-- The total, and the runs of the first page, of at most 100.
pub record CheckRuns : Type 0 where
  pub total : ℕ
  pub runs : List CheckRun

pub record Summary : Type 0 where
  pub done : Bool
  pub passed : Bool
  pub detail : Text

abbrev pub is_acceptable : Text → Bool
is_acceptable c = c == lit "success" || c == lit "neutral" || c == lit "skipped"

abbrev none_reported : Summary
none_reported = record { done = false; passed = false; detail = lit "no checks reported yet" }

module _ (quote : Text → Text) where
  abbrev pub concluded : CheckRun → Summary → Summary
  concluded run rest = if is_acceptable run.conclusion then rest else record {
    done = true;
    passed = false;
    detail = lit "check " ++ quote run.name ++ lit " concluded " ++ run.conclusion;
  }

  abbrev pub judged : CheckRun → Summary → Summary
  judged run rest = if run.status == lit "completed" then concluded run rest else record {
    done = false;
    passed = false;
    detail = lit "check " ++ quote run.name ++ lit " is " ++ run.status;
  }

  -- The loop over the runs.
  unfoldable pub summarize_runs : List CheckRun → Summary
  summarize_runs [] = record { done = true; passed = true; detail = lit "all checks passed" }
  summarize_runs (run ∷ runs) = let rest = summarize_runs runs in judged run rest

  abbrev pub summarize_reported : ℕ → List CheckRun → Summary
  summarize_reported zero runs = none_reported
  summarize_reported (suc total) [] = none_reported
  summarize_reported (suc total) (run ∷ runs) = summarize_runs (run ∷ runs)

  unfoldable pub summarize_checks : Option CheckRuns → Summary
  unfolding summarize_runs
  summarize_checks none = none_reported
  summarize_checks (some r) = summarize_reported r.total r.runs

-- What one round of the wait is answered: the head commit of the pull request, the check runs of a
-- commit, and whether the context ended before the tick.
pub record Answers : Type 0 where
  pub head : Result Text
  pub runs : Text → Result (Option CheckRuns)
  pub ended : Option Error

pub record Waited : Type 0 where
  pub passed : Bool
  pub detail : Text
  pub failure : Option Error

abbrev pub failed_wait : Text → Error → Waited
failed_wait prefix e = record {
  passed = false;
  detail = [];
  failure = some (wrap (prefix ++ lit ": " ++ e.text) e);
}

-- 15 seconds, in nanoseconds, for an interval that is not positive.
unfoldable pub poll_or_default : ℤ → ℕ
poll_or_default (pos zero) = 15000000000
poll_or_default (pos (suc n)) = suc n
poll_or_default (negsuc n) = 15000000000

module _ (quote : Text → Text) (n : ℕ) where
  abbrev pub paused : Option Error → Round Waited (Unit {0})
  paused none = goes tt
  paused (some e) = stops (record {
    passed = false;
    detail = lit "checks did not conclude in time";
    failure =
        some (wrap (lit "wait for checks on pull request " ++ itoa n ++ lit ": " ++ e.text) e);
  })

  abbrev pub summarized : Summary → Option Error → Round Waited (Unit {0})
  summarized s ended =
      if s.done
      then stops (record { passed = s.passed; detail = s.detail; failure = none })
      else paused ended

  abbrev pub listed : Text → Result (Option CheckRuns) → Option Error → Round Waited (Unit {0})
  listed sha (err e) ended = stops (failed_wait (lit "list check runs for " ++ sha) e)
  listed sha (ok runs) ended = summarized (summarize_checks quote runs) ended

  abbrev pub headed : Result Text → Answers → Round Waited (Unit {0})
  headed (err e) r = stops (failed_wait (lit "read pull request " ++ itoa n) e)
  headed (ok sha) r = listed sha (r.runs sha) r.ended

  unfoldable pub wait_round : Answers → Round Waited (Unit {0})
  unfolding summarize_checks
  wait_round r = headed r.head r

  -- WaitChecks, behind the error of building its client. The answers come at the ticks of an interval.
  unfoldable pub wait_checks : Option Error → ℤ → (ℕ → ℕ → Answers) → ℕ → Option Waited
  unfolding wait_round poll_loop poll_or_default
  wait_checks (some e) poll answers fuel =
      some (record { passed = false; detail = []; failure = some e })
  wait_checks none poll answers fuel =
      poll_loop (λ k u. wait_round (answers (poll_or_default poll) k)) fuel 0 tt
