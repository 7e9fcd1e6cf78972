-- ===== src/Deploy/Start.antt =====
-- internal/deploy/engine.go: Deploy, Rollback, Converge, start and the goroutine that it launches.
use snowdeploy.Base.{
  ℕ, Text, lit, ◌==◌, is_empty, eqb, Bool, true, false, not, ◌&&◌, ◌||◌, [], ◌∷◌, ◌++◌, Option,
  none, some, Error, errors_new, already_at_digest, Result, ok, err, if◌then◌else◌,
}
use snowdeploy.Manifest.Defs.{Manifest}
use snowdeploy.Manifest.Validate.{is_digest}
use snowdeploy.Journal.Defs.{Action, State, Entry, is_converge}
use snowdeploy.Effect.{Call, PendingRun, RunRequest, Prog, ret, ◌>>=◌, ◌>>◌, perform, skip}
use snowdeploy.Deploy.Digest.{set_digest}
use snowdeploy.Deploy.Engine.{Options}
use snowdeploy.Deploy.Run.{run}

-- The journal id to follow, and whether the click joined a run.
abbrev pub Started : Type 0
Started = Result (ℕ × Bool)

abbrev not_a_pin : Options → Text → Error
not_a_pin o digest =
    errors_new (o.applier.platform.quote digest ++ lit " is not a sha256 digest pin")

-- `(a == converge) == (b == converge)`
abbrev pub same_kind : Action → Action → Bool
same_kind a b = if is_converge a then is_converge b else not (is_converge b)

-- A live entry that the click may join.
abbrev pub joins : Action → Text → PendingRun → Bool
joins action digest p = same_kind p.action action && p.digest == digest

-- The deferred end of the goroutine.
unfoldable pub unregister_if : Text → ℕ → Option PendingRun → Prog Unit
unregister_if service id none = skip
unregister_if service id (some p) =
    if eqb p.id id then perform (Call.delete_pending service) else skip

unfoldable pub background : Options → RunRequest → Prog Unit
background o req = do
  run o req
  perform Call.lock_mu
  p ← perform (Call.read_pending req.service)
  unregister_if req.service req.id p
  perform Call.unlock_mu
  perform Call.in_flight_done

-- What `start` has settled before it registers a run.
pub record Click : Type 0 where
  pub action : Action
  pub service : Text
  pub actor : Text
  pub old_digest : Text
  pub digest : Text
  pub raw : Text
  pub content : Text

abbrev pub request : Click → ℕ → RunRequest
request c id = record {
  id = id;
  action = c.action;
  service = c.service;
  old_digest = c.old_digest;
  new_digest = c.digest;
  original_raw = c.raw;
  new_content = c.content;
  pr_number = 0;
  pr_url = [];
  merge_url = [];
  detail_prefix = [];
}

abbrev pub first_entry : Click → ℕ → Entry
first_entry c at = record {
  id = 0;
  service = c.service;
  action = c.action;
  actor = c.actor;
  old_digest = c.old_digest;
  new_digest = c.digest;
  pr_number = 0;
  merge_sha = [];
  state = State.detected;
  detail = [];
  started_at = some at;
  finished_at = none;
}

module _ (c : Click) where
  unfoldable pub register : Option PendingRun → ℕ → Prog Unit
  register (some p) id = skip
  register none id =
      perform
        (Call.write_pending c.service (record { action = c.action; digest = c.digest; id = id }))

  unfoldable pub start_begun : Option PendingRun → Result ℕ → Prog Started
  start_begun pending (err e) = do perform Call.unlock_mu; ret (err e)
  start_begun pending (ok id) = do
    register pending id
    perform Call.unlock_mu
    perform Call.in_flight_add
    perform (Call.go (request c id))
    ret (ok (id, false))

  unfoldable pub start_new : Option PendingRun → Prog Started
  start_new pending = do
    at ← perform Call.now
    begun ← perform (Call.begin (first_entry c at))
    start_begun pending begun

  unfoldable pub start_joined : PendingRun → Prog Started
  start_joined p = do perform Call.unlock_mu; ret (ok (p.id, true))

  unfoldable pub start_pending : Option PendingRun → Prog Started
  start_pending none = start_new none
  start_pending (some p) = if joins c.action c.digest p then start_joined p else start_new (some p)

  unfoldable pub start_registered : Prog Started
  start_registered = do
    perform Call.lock_mu
    pending ← perform (Call.read_pending c.service)
    start_pending pending

module _ (o : Options) (action : Action) (service actor : Text) where
  unfoldable pub start_content : Manifest → Text → Text → Result Text → Prog Started
  start_content current raw digest (err e) = ret (err e)
  start_content current raw digest (ok content) = start_registered (record {
    action = action;
    service = service;
    actor = actor;
    old_digest = current.image.digest;
    digest = digest;
    raw = raw;
    content = content;
  })

  unfoldable pub new_content : Manifest → Text → Text → Result Text
  new_content current raw digest =
      if is_converge action
      then ok raw
      else if current.image.digest == digest
      then err (record {
        text = service ++ lit ": service is already pinned to that digest (" ++ digest ++ lit ")";
        chain = already_at_digest ∷ [];
      })
      else set_digest raw current.image.digest digest

  unfoldable pub start_resolved : Manifest → Text → Result Text → Prog Started
  start_resolved current raw (err e) = ret (err e)
  start_resolved current raw (ok digest) =
      if is_digest digest
      then start_content current raw digest (new_content current raw digest)
      else ret (err (not_a_pin o digest))

  module _ (resolve : Text → Prog (Result Text)) where
    unfoldable pub start_read : Result (Manifest × Text) → Prog Started
    start_read (err e) = ret (err e)
    start_read (ok (current, raw)) = do
      digest ← resolve current.image.digest
      start_resolved current raw digest

    unfoldable pub start : Prog Started
    start = do read ← perform (Call.read_manifest service); start_read read

module _ (o : Options) where
  -- Engine.Deploy
  unfoldable pub request_deploy : Text → Text → Text → Prog Started
  request_deploy service digest actor =
      if is_digest digest
      then start o Action.deploy service actor (λ current. ret (ok digest))
      else ret (err (not_a_pin o digest))

  abbrev rollback_target : Text → Text → Text → Prog (Result Text)
  rollback_target service to_digest current =
      if is_empty to_digest
      then perform (Call.previous_healthy_digest service current)
      else ret (ok to_digest)

  -- Engine.Rollback
  unfoldable pub request_rollback : Text → Text → Text → Prog Started
  request_rollback service to_digest actor =
      if is_empty to_digest || is_digest to_digest
      then start o Action.rollback service actor (rollback_target service to_digest)
      else ret (err (not_a_pin o to_digest))

  -- Engine.Converge
  unfoldable pub request_converge : Text → Text → Prog Started
  request_converge service actor =
      start o Action.converge service actor (λ current. ret (ok current))
