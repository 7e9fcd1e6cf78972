-- ===== src/Deploy/Outcome/Proposals.antt =====
-- The proposals of a run: merged only behind checks that passed, and none for a converge.
use mathlib.Core.Path.{subst}
use snowdeploy.Base.{
  ℕ, Text, ◌≡◌, refl, sym, Bool, true, false, Option, none, some, ok, err, [], ◌∷◌, arith,
  if◌then◌else◌,
}
use snowdeploy.Journal.Defs.{is_converge}
use snowdeploy.Effect.{Call, Answer, RunRequest}
use snowdeploy.Effect.Logic.{Protocol}
use snowdeploy.Effect.Run.{World, Trace, step, Keeps, Keeps-view}
use snowdeploy.Deploy.Engine.{Options}
use snowdeploy.Deploy.Protocol.{Watch, started, run_protocol, RunAllowed, run_after}
use snowdeploy.Deploy.Keeps.Plumbing.{protocol}
use snowdeploy.Deploy.Outcome.Traces.{run_trace, run-Keeps}

-- The proposal whose checks are known to pass on the branch as it stands.
abbrev CheckedAllowed : Option ℕ → Call → Type 0
CheckedAllowed g (Call.merge n) = g ≡ some n
CheckedAllowed g _ = Unit

abbrev checked_after : Option ℕ → (c : Call) → Answer c → Option ℕ
checked_after g (Call.wait_checks n poll) (ok (true, detail)) = some n
checked_after g (Call.wait_checks n poll) (ok (false, detail)) = none
checked_after g (Call.wait_checks n poll) (err e) = none
checked_after g (Call.merge n) a = none
checked_after g (Call.update_branch n) a = none
checked_after g (Call.close_pr n comment) a = none
checked_after g (Call.open_manifest_pr s content title body) (ok n) = none
checked_after g _ _ = g

-- A proposal is merged only if its own checks passed, and since they did nothing was merged,
-- refused, updated, opened or closed.
abbrev pub checks_first : Protocol
checks_first = record { Watch = Option ℕ; Allowed = CheckedAllowed; after = checked_after }

abbrev checked_by : Watch → Option ℕ
checked_by g = if g.passed then g.proposal else none

-- No proposal, and no merge lock.
abbrev NoProposalAllowed : Unit {0} → Call → Type 0
NoProposalAllowed g (Call.open_manifest_pr s content title body) = ⊥
NoProposalAllowed g (Call.merge n) = ⊥
NoProposalAllowed g (Call.update_branch n) = ⊥
NoProposalAllowed g Call.lock_merge = ⊥
NoProposalAllowed g _ = Unit

abbrev pub no_proposals : Protocol
no_proposals = record { Watch = Unit {0}; Allowed = NoProposalAllowed; after = λ g c a. tt }

module _ (o : Options) (id : ℕ) (service : Text) (conv : Bool) where
  checked-allowed :
      (g : Watch) (c : Call) → RunAllowed o id service conv g c → CheckedAllowed (checked_by g) c
  checked-allowed g (Call.merge n) k = ground arith
  checked-allowed g Call.now k = tt
  checked-allowed g _ k = tt

  checked-follows :
      (g : Watch) (c : Call) (a : Answer c)
      → RunAllowed o id service conv g c
      → checked_after (checked_by g) c a ≡ checked_by (run_after o id service conv g c a)
  checked-follows g (Call.lock_service s) none k = refl
  checked-follows g (Call.lock_service s) (some e) k = refl
  checked-follows g (Call.open_manifest_pr s content title body) (ok n) k = refl
  checked-follows g (Call.open_manifest_pr s content title body) (err e) k = refl
  checked-follows g (Call.wait_checks n poll) (ok (true, detail)) k = sym k.1
  checked-follows g (Call.wait_checks n poll) (ok (false, detail)) k = refl
  checked-follows g (Call.wait_checks n poll) (err e) k = refl
  checked-follows g (Call.merge n) (ok sha) k = refl
  checked-follows g (Call.merge n) (err e) k = refl
  checked-follows g (Call.set_digests j old new) none k = refl
  checked-follows g (Call.set_digests j old new) (some e) k = refl
  checked-follows g (Call.write_unit name u) none k = refl
  checked-follows g (Call.write_unit name u) (some e) k = refl
  checked-follows g (Call.reload_and_restart s) none k = refl
  checked-follows g (Call.reload_and_restart s) (some e) k = refl
  checked-follows g (Call.probe url timeout interval) none k = refl
  checked-follows g (Call.probe url timeout interval) (some e) k = refl
  checked-follows g (Call.running_image s) (ok d) k = refl
  checked-follows g (Call.running_image s) (err e) k = refl
  checked-follows g _ _ k = refl

-- In any world a run merges a proposal only directly behind checks of that proposal that passed.
pub run-checks_first :
    (w : World) (o : Options) (req : RunRequest) (s : w.State)
    → Keeps checks_first none (run_trace w o req s)
run-checks_first w o req s =
    (Keeps-view (protocol o req) checks_first checked_by
      (checked-allowed o req.id req.service (is_converge req.action))
      (checked-follows o req.id req.service (is_converge req.action)) _ _ (run-Keeps w o req s).0).0

module _ (o : Options) (id : ℕ) (service : Text) where
  -- A converge makes none of these calls.
  no_proposal-allowed :
      (g : Watch) (c : Call)
      → g.merge_held ≡ false
      → RunAllowed o id service true g c
      → NoProposalAllowed tt c
  no_proposal-allowed g (Call.open_manifest_pr s content title body) free k = cc (k.1)
  no_proposal-allowed g (Call.merge n) free k = cc (k.0)
  no_proposal-allowed g (Call.update_branch n) free k = cc (k.0)
  no_proposal-allowed g Call.lock_merge free k = cc (k.0)
  no_proposal-allowed g _ free k = tt

  -- It never comes to hold the merge lock.
  still_free :
      (g : Watch) (c : Call) (a : Answer c)
      → g.merge_held ≡ false
      → RunAllowed o id service true g c
      → (run_after o id service true g c a).merge_held ≡ false
  still_free g Call.lock_merge a free k = cc (k.0)
  still_free g Call.unlock_merge a free k = refl
  still_free g c a free k = ground arith

  converge-no_proposals :
      (g : Watch) (t : Trace)
      → g.merge_held ≡ false
      → Keeps (run_protocol o id service true) g t
      → Keeps no_proposals tt t
  converge-no_proposals g [] free k = tt
  converge-no_proposals g (step c a ∷ t) free k = (
    no_proposal-allowed g c free k.0,
    converge-no_proposals (run_after o id service true g c a) t (still_free g c a free k.0) k.1,
  )

-- In any world the run of a converge opens, updates and merges no proposal, and never takes the
-- merge lock.
pub converge-no_proposal :
    (w : World) (o : Options) (req : RunRequest) (s : w.State)
    → is_converge req.action ≡ true
    → Keeps no_proposals tt (run_trace w o req s)
converge-no_proposal w o req s conv =
    converge-no_proposals o req.id req.service (started req.new_digest) _ refl (
      subst
        (λ (b : Bool).
          Keeps (run_protocol o req.id req.service b) (started req.new_digest)
            (run_trace w o req s))
        conv (run-Keeps w o req s).0)
