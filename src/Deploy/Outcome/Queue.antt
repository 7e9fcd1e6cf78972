-- ===== src/Deploy/Outcome/Queue.antt =====
-- The locks of a run: taken in one order, and all given back.
use snowdeploy.Base.{ℕ, ◌≡◌, refl, ap, ◌∙◌, Text, Bool, true, false, none, some, ok, err}
use snowdeploy.Journal.Defs.{is_converge}
use snowdeploy.Effect.{Call, Answer, RunRequest}
use snowdeploy.Effect.Logic.{Protocol}
use snowdeploy.Effect.Run.{World, Keeps, final, Keeps-view}
use snowdeploy.Deploy.Engine.{Options}
use snowdeploy.Deploy.Protocol.{Stand, idle, in_mu, queued, Watch, RunAllowed, run_after}
use snowdeploy.Deploy.Keeps.Plumbing.{protocol}
use snowdeploy.Deploy.Outcome.Traces.{run_trace, run-Keeps}

-- The locks that a run holds: that on the service, that of the merge queue, and the engine's own `mu`.
pub record Held : Type 0 where
  pub service : Bool
  pub merge : Bool
  pub mu : Bool

abbrev HeldAllowed : Held → Call → Type 0
HeldAllowed g (Call.lock_service s) = (g.service ≡ false) × (g.merge ≡ false) × (g.mu ≡ false)
HeldAllowed g (Call.unlock_service s) = (g.service ≡ true) × (g.merge ≡ false)
HeldAllowed g Call.lock_merge = (g.service ≡ true) × (g.merge ≡ false) × (g.mu ≡ false)
HeldAllowed g Call.unlock_merge = g.merge ≡ true
HeldAllowed g Call.lock_mu = g.mu ≡ false
HeldAllowed g Call.unlock_mu = g.mu ≡ true
HeldAllowed g (Call.finish id st detail) = g.merge ≡ false
HeldAllowed g (Call.write_unit name u) = (g.service ≡ true) × (g.merge ≡ false)
HeldAllowed g (Call.reload_and_restart s) = (g.service ≡ true) × (g.merge ≡ false)
HeldAllowed g (Call.open_manifest_pr s content title body) = g.merge ≡ true
HeldAllowed g (Call.merge n) = g.merge ≡ true
HeldAllowed g _ = Unit

abbrev held_after : Held → (c : Call) → Answer c → Held
held_after g (Call.lock_service s) none = record g { service = true }
held_after g (Call.unlock_service s) a = record g { service = false }
held_after g Call.lock_merge a = record g { merge = true }
held_after g Call.unlock_merge a = record g { merge = false }
held_after g Call.lock_mu a = record g { mu = true }
held_after g Call.unlock_mu a = record g { mu = false }
held_after g _ _ = g

-- The discipline of the locks. No lock is taken twice, and only a lock that is held is given back; no
-- other lock is waited for while `mu` is held; the merge lock is taken only by a holder of
-- the service's, which is given back last; proposals are opened and merged only under the merge
-- lock, and the host is changed and the receipt written only outside it.
abbrev pub lock_discipline : Protocol
lock_discipline = record { Watch = Held; Allowed = HeldAllowed; after = held_after }

abbrev in_mu_of : Stand → Bool
in_mu_of idle = false
in_mu_of in_mu = true
in_mu_of queued = false

abbrev pub held_by : Watch → Held
held_by g = record { service = g.service_held; merge = g.merge_held; mu = in_mu_of g.stand }

module _ (o : Options) (id : ℕ) (service : Text) (conv : Bool) where
  held-allowed :
      (g : Watch) (c : Call) → RunAllowed o id service conv g c → HeldAllowed (held_by g) c
  held-allowed g (Call.lock_service s) k = (k.2, k.3, ap in_mu_of k.1)
  held-allowed g (Call.unlock_service s) k = (k.1, k.2)
  held-allowed g Call.lock_merge k = (k.2, k.3, ap in_mu_of k.1)
  held-allowed g Call.unlock_merge k = k
  held-allowed g Call.lock_mu k = ap in_mu_of k
  held-allowed g Call.unlock_mu k = ap in_mu_of k
  held-allowed g (Call.finish j st detail) k = k.3
  held-allowed g (Call.write_unit name u) k = (k.0, k.1)
  held-allowed g (Call.reload_and_restart s) k = (k.0, k.1)
  held-allowed g (Call.open_manifest_pr s content title body) k = k.1
  held-allowed g (Call.merge n) k = k.0
  held-allowed g _ k = tt

  held-follows :
      (g : Watch) (c : Call) (a : Answer c)
      → RunAllowed o id service conv g c
      → held_after (held_by g) c a ≡ held_by (run_after o id service conv g c a)
  held-follows g (Call.lock_service s) none k = refl
  held-follows g (Call.lock_service s) (some e) k = refl
  held-follows g (Call.open_manifest_pr s content title body) (ok n) k = refl
  held-follows g (Call.open_manifest_pr s content title body) (err e) k = refl
  held-follows g (Call.wait_checks n poll) (ok (passed, detail)) k = refl
  held-follows g (Call.wait_checks n poll) (err e) k = refl
  held-follows g (Call.merge n) (ok sha) k = refl
  held-follows g (Call.merge n) (err e) k = refl
  held-follows g (Call.set_digests j old new) none k = refl
  held-follows g (Call.set_digests j old new) (some e) k = refl
  held-follows g (Call.write_unit name u) none k = refl
  held-follows g (Call.write_unit name u) (some e) k = refl
  held-follows g (Call.reload_and_restart s) none k = refl
  held-follows g (Call.reload_and_restart s) (some e) k = refl
  held-follows g (Call.probe url timeout interval) none k = refl
  held-follows g (Call.probe url timeout interval) (some e) k = refl
  held-follows g (Call.running_image s) (ok d) k = refl
  held-follows g (Call.running_image s) (err e) k = refl
  held-follows g Call.queue_enter a k =
      ap (λ (b : Bool). record { service = g.service_held; merge = g.merge_held; mu = b })
        (ap in_mu_of k)
  held-follows g Call.queue_leave a k =
      ap (λ (b : Bool). record { service = g.service_held; merge = g.merge_held; mu = b })
        (ap in_mu_of k)
  held-follows g _ _ k = refl

abbrev pub nothing_held : Held
nothing_held = record { service = false; merge = false; mu = false }

-- In any world a run keeps to the discipline of the locks, the engine's own `mu` included, and holds
-- no lock at its end, whether it
-- succeeds, fails or is abandoned.
pub run-locks :
    (w : World) (o : Options) (req : RunRequest) (s : w.State)
    → Keeps lock_discipline nothing_held (run_trace w o req s)
      × (final lock_discipline nothing_held (run_trace w o req s) ≡ nothing_held)
run-locks w o req s =
    let (kept, settled) = run-Keeps w o req s in
    let (disciplined, ends) =
      Keeps-view (protocol o req) lock_discipline held_by
        (held-allowed o req.id req.service (is_converge req.action))
        (held-follows o req.id req.service (is_converge req.action)) _ _ kept in
    (
      disciplined,
      ends ∙ λ i. record {
        service = settled.service_released i;
        merge = settled.merge_released i;
        mu = in_mu_of (settled.no_mu_and_not_queued i);
      },
    )
