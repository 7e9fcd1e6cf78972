-- ===== src/Journal/Defs.antt =====
-- internal/journal/journal.go: actions, states, entries. The states of internal/deploy/states.go
-- are here too, since one column holds both; the last three are the journal's own.
use snowdeploy.Base.{ℕ, Text, Option, Bool, true, false}

pub data Action : Type 0 where
  deploy rollback converge auto_rollback : Action

pub data State : Type 0 where
  detected pr_open checks merged reconciling probing healthy rolled_back failed : State

abbrev pub is_terminal : State → Bool
is_terminal healthy = true
is_terminal rolled_back = true
is_terminal failed = true
is_terminal _ = false

abbrev pub is_healthy : State → Bool
is_healthy healthy = true
is_healthy _ = false

abbrev pub is_converge : Action → Bool
is_converge converge = true
is_converge _ = false

-- Times are nanoseconds; `none` is Go's zero time, and NULL in the table.
pub record Entry : Type 0 where
  pub id : ℕ
  pub service : Text
  pub action : Action
  pub actor : Text
  pub old_digest : Text
  pub new_digest : Text
  pub pr_number : ℕ
  pub merge_sha : Text
  pub state : State
  pub detail : Text
  pub started_at : Option ℕ
  pub finished_at : Option ℕ
