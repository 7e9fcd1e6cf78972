-- ===== src/Deploy/Keeps/Plumbing.antt =====
-- The plumbing of internal/deploy/engine.go keeps to the protocol of a run.
use snowdeploy.Base.{ℕ, Text, ◌≡◌, refl, Bool, true, false, ◌++◌, Option, none, some, Error}
use snowdeploy.Journal.Defs.{State, failed, is_terminal, is_converge}
use snowdeploy.Effect.{RunRequest, ◌>>=◌}
use snowdeploy.Effect.Logic.{Protocol, Wp, Wp-if}
use snowdeploy.Deploy.Engine.{
  Options, event, emit, finish, fail, sync_failure, lock_merge_queue, lock, close_pr, notify,
}
use snowdeploy.Deploy.Protocol.{Passed, idle, Watch, Justified, run_protocol}

-- The protocol of the run that carries a request.
abbrev pub protocol : Options → RunRequest → Protocol
protocol o req = run_protocol o req.id req.service (is_converge req.action)

-- The facts that a running deploy carries from step to step.
abbrev pub At : Bool → Text → Option Passed → Watch → Type 0
At merging target probed g =
    (g.receipt ≡ false)
    × (g.service_held ≡ true)
    × (g.merge_held ≡ merging)
    × (g.stand ≡ idle)
    × (g.target ≡ target)
    × (g.probed ≡ probed)

module _ (o : Options) (req : RunRequest) where
  -- The event of an update says what the journal says.
  notify-Wp :
      (st : State) (detail : Text) (Q : Unit → Watch → Type 0) (g : Watch)
      → g.entry ≡ some (st, detail)
      → Q tt g
      → Wp (protocol o req) (event req st detail >>= notify o) Q g
  unfolding event
  notify-Wp st detail Q g e q =
      (tt, λ at. Wp-if (protocol o req) o.has_notify _ _ Q g (λ _. ((refl, e), λ _. q)) (λ _. q))

  -- An update of the journal, with its event.
  pub emit-Wp :
      (st : State) (detail : Text) (Q : Unit → Watch → Type 0) (g : Watch)
      → is_terminal st ≡ false
      → g.receipt ≡ false
      → Q tt (record g { entry = some (st, req.detail_prefix ++ detail) })
      → Wp (protocol o req) (emit o req st detail) Q g
  unfolding emit
  emit-Wp st detail Q g live open_ q =
      ((refl, open_, live), λ _. notify-Wp st (req.detail_prefix ++ detail) Q _ refl q)

  -- The receipt, with its event.
  pub finish-Wp :
      (st : State) (detail : Text) (Q : Unit → Watch → Type 0) (g : Watch)
      → is_terminal st ≡ true
      → g.receipt ≡ false
      → g.merge_held ≡ false
      → Justified o g st
      → Q tt (record g { entry = some (st, req.detail_prefix ++ detail); receipt = true })
      → Wp (protocol o req) (finish o req st detail) Q g
  unfolding finish
  finish-Wp st detail Q g ends open_ free just q =
      ((refl, open_, ends, free, just), λ _. notify-Wp st (req.detail_prefix ++ detail) Q _ refl q)

  pub fail-Wp :
      (detail : Text) (Q : Unit → Watch → Type 0) (g : Watch)
      → g.receipt ≡ false
      → g.merge_held ≡ false
      → Q tt (record g { entry = some (failed, req.detail_prefix ++ detail); receipt = true })
      → Wp (protocol o req) (fail o req detail) Q g
  unfolding fail
  fail-Wp detail Q g open_ free q = finish-Wp failed detail Q g refl open_ free tt q

  -- Reading why a sync failed changes nothing.
  pub sync_failure-Wp :
      (e : Error) (Q : Text → Watch → Type 0) (g : Watch)
      → ((said : Text) → Q said g)
      → Wp (protocol o req) (sync_failure e) Q g
  unfolding sync_failure
  sync_failure-Wp e Q g q = (tt, λ a. q _)

  pub lock_merge_queue-Wp :
      (Q : Unit → Watch → Type 0) (g : Watch)
      → is_converge req.action ≡ false
      → g.service_held ≡ true
      → g.merge_held ≡ false
      → g.stand ≡ idle
      → Q tt (record g { merge_held = true; stand = idle })
      → Wp (protocol o req) lock_merge_queue Q g
  unfolding lock_merge_queue
  lock_merge_queue-Wp Q g proposes held free calm q =
      (calm, λ _. ((proposes, refl, held, free), λ _. (refl, λ _. q)))

  -- The lock on the service is held afterwards, or the run gave up.
  pub lock-Wp :
      (Q : Option Error → Watch → Type 0) (g : Watch)
      → g.service_held ≡ false
      → g.merge_held ≡ false
      → g.stand ≡ idle
      → Q none (record g { service_held = true; stand = idle })
      → ((e : Error) → Q (some e) (record g { stand = idle }))
      → Wp (protocol o req) (lock req.service) Q g
  unfolding lock
  lock-Wp Q g free free_merge calm got gone = (
    calm,
    λ _. (
      refl,
      λ _. (
        refl,
        λ _. (
          (refl, refl, free, free_merge),
          elim [ none ↦ (refl, λ _. got) | some e ↦ (refl, λ _. gone e) ],
        ),
      ),
    ),
  )

  pub close_pr-Wp :
      (n : ℕ) (comment : Text) (Q : Unit → Watch → Type 0) (g : Watch)
      → g.proposal ≡ some n
      → Q tt (record g { proposal = none; passed = false })
      → Wp (protocol o req) (close_pr n comment) Q g
  unfolding close_pr
  close_pr-Wp n comment Q g p q = (p, λ _. q)
