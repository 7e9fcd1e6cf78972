-- ===== src/Effect.antt =====
-- Code with effects: a `Prog` is a tree of calls of what lies outside the function, and the code
-- goes on from each answer. The answers are the environment's (other goroutines included).
pub mod Logic
pub mod Run
use snowdeploy.Base.{ℕ, Text, Bool, Option, List, Error, Result}
use snowdeploy.Base.Int.{ℤ}
use snowdeploy.Manifest.Defs.{Manifest}
use snowdeploy.Journal.Defs.{Action, State, Entry}

-- internal/deploy/engine.go: Event. A link that is left out is the empty text.
pub record Event : Type 0 where
  pub service : Text
  pub action : Action
  pub state : State
  pub detail : Text
  pub journal_id : ℕ
  pub pr_number : ℕ
  pub pr_url : Text
  pub merge_url : Text
  pub at : ℕ

-- internal/deploy/engine.go: pendingRun
pub record PendingRun : Type 0 where
  pub action : Action
  pub digest : Text
  pub id : ℕ

-- internal/deploy/engine.go: runRequest
pub record RunRequest : Type 0 where
  pub id : ℕ
  pub action : Action
  pub service : Text
  pub old_digest : Text
  pub new_digest : Text
  pub original_raw : Text
  pub new_content : Text
  pub pr_number : ℕ
  pub pr_url : Text
  pub merge_url : Text
  pub detail_prefix : Text

pub data Call : Type 0 where
  -- time.Now, ctx.Err, and a select of ctx.Done against time.After: whether ctx won
  now ctx_err : Call
  sleep : ℕ → Call
  -- ConfigRepo
  sync sync_state : Call
  read_manifest read_template : Text → Call
  -- gitops.PRClient
  open_manifest_pr : Text → Text → Text → Text → Call
  wait_checks : ℕ → ℕ → Call
  merge update_branch : ℕ → Call
  close_pr : ℕ → Text → Call
  -- Store
  begin : Entry → Call
  progress finish : ℕ → State → Text → Call
  set_pr : ℕ → ℕ → Call
  set_digests : ℕ → Text → Text → Call
  set_merge_sha : ℕ → Text → Call
  previous_healthy_digest : Text → Text → Call
  -- reconcile.Systemd and reconcile.Probe
  running_image reload_and_restart : Text → Call
  write_unit : Text → Text → Call
  probe : Text → ℤ → ℕ → Call
  -- Options.Notify
  notify : Event → Call
  -- Engine.queued, and the locks: mergeMu, the service's channel, mu with the map `pending`
  queue_enter queue_leave lock_merge unlock_merge lock_mu unlock_mu : Call
  lock_service unlock_service read_pending delete_pending : Text → Call
  write_pending : Text → PendingRun → Call
  -- Engine.inFlight, and `go`
  in_flight_add in_flight_done : Call
  go : RunRequest → Call

-- What a call answers. `Option Error` is an error that may be nil.
abbrev pub Answer : Call → Type 0
Answer now = ℕ
Answer ctx_err = Option Error
Answer (sleep d) = Bool
Answer sync = Result Text
Answer sync_state = Bool × Option Error
Answer (read_manifest s) = Result (Manifest × Text)
Answer (read_template t) = Result Text
Answer (open_manifest_pr s content title body) = Result ℕ
Answer (wait_checks n poll) = Result (Bool × Text)
Answer (merge n) = Result Text
Answer (update_branch n) = Option Error
Answer (close_pr n comment) = Option Error
Answer (begin e) = Result ℕ
Answer (progress id st detail) = Option Error
Answer (finish id st detail) = Option Error
Answer (set_pr id n) = Option Error
Answer (set_digests id old new) = Option Error
Answer (set_merge_sha id sha) = Option Error
Answer (previous_healthy_digest s d) = Result Text
Answer (running_image s) = Result Text
Answer (reload_and_restart s) = Option Error
Answer (write_unit name content) = Option Error
Answer (probe url timeout interval) = Option Error
Answer (lock_service s) = Option Error
Answer (read_pending s) = Option PendingRun
Answer _ = Unit

pub data Prog (A : Type 0) : Type 0 where
  ret : A → Prog A
  call : (c : Call) → (Answer c → Prog A) → Prog A

infixl 5 ◌>>=◌ ◌>>◌
abbrev pub ◌>>=◌ : {A B : Type 0} → Prog A → (A → Prog B) → Prog B
ret a >>= f = f a
call c k >>= f = call c (λ a. k a >>= f)

abbrev pub ◌>>◌ : {A B : Type 0} → Prog A → Prog B → Prog B
m >> n = m >>= λ _. n

abbrev pub perform : (c : Call) → Prog (Answer c)
perform c = call c ret

abbrev pub skip : Prog Unit
skip = ret tt
