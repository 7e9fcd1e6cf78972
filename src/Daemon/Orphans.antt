-- ===== src/Daemon/Orphans.antt =====
-- failOrphanedDeploys of cmd/snowdeployd/main.go: at its start the daemon closes what an earlier
-- process left in flight. What the driver may fail with, and the clock, are given for each entry.
pub mod Loop
pub mod Closed
pub mod Quiet
use snowdeploy.Base.{
  ℕ, ltb, Text, lit, itoa, ◌++◌, List, [], ◌∷◌, Option, none, some, Error, wrap, Result, ok, err,
  if◌then◌else◌,
}
use snowdeploy.Journal.Defs.{State, Entry}
use snowdeploy.Journal.Table.{Fault, Table, finish}
use snowdeploy.Journal.Queries.{unfinished}

-- The states as they are written: internal/deploy/states.go.
abbrev pub state_text : State → Text
state_text State.detected = lit "detected"
state_text State.pr_open = lit "pr-open"
state_text State.checks = lit "checks"
state_text State.merged = lit "merged"
state_text State.reconciling = lit "reconciling"
state_text State.probing = lit "probing"
state_text State.healthy = lit "healthy"
state_text State.rolled_back = lit "rolled-back"
state_text State.failed = lit "failed"

abbrev pub orphan_error : Entry → Error → Error
orphan_error e f = wrap (lit "fail orphaned deploy " ++ itoa e.id ++ lit ": " ++ f.text) f

-- The rest of the loop, behind the receipt of an orphan.
abbrev pub closed_or_failed :
    Entry → Option Error → Table → Option Error × Table → Option Error × Table
closed_or_failed e none t' rest = rest
closed_or_failed e (some f) t' rest = (some (orphan_error e f), t')

module _ (quote : Text → Text) (fault : ℕ → Option Fault) (now : ℕ → ℕ) where
  unfoldable pub orphan_detail : Entry → Text
  orphan_detail e =
      lit "the daemon restarted while this deploy was in "
      ++ quote (state_text e.state)
      ++ (if ltb 0 e.pr_number
          then lit "; PR #" ++ itoa e.pr_number ++ lit " may still be open — check it and re-run"
          else lit "; re-run")

  abbrev pub close_out : Entry → Table → Option Error × Table
  close_out e = finish (fault e.id) e.id (now e.id) State.failed (orphan_detail e)

  -- The loop over the orphans.
  unfoldable pub close_all : List Entry → Table → Option Error × Table
  unfolding finish orphan_detail
  close_all [] t = (none, t)
  close_all (e ∷ es) t =
      let (failure, t') = close_out e t in
      let rest = close_all es t' in closed_or_failed e failure t' rest

  abbrev pub listed : Result (List Entry) → Table → Option Error × Table
  listed (err e) t = (some e, t)
  listed (ok orphans) t = close_all orphans t

  unfoldable pub fail_orphaned_deploys : Option Error → Table → Option Error × Table
  unfolding close_all unfinished
  fail_orphaned_deploys list_fault t = listed (unfinished list_fault t) t
