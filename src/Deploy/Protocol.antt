-- ===== src/Deploy/Protocol.antt =====
-- The protocol of one run: what its calls tell of the locks, the proposal, the host and the
-- journal, and which call may be made when. It is a specification, and models no code.
use snowdeploy.Base.{ℕ, Text, lit, ◌++◌, ◌≡◌, ◌⊎◌, Bool, true, false, Option, none, some, ok, err}
use snowdeploy.Manifest.Defs.{Manifest}
use snowdeploy.Manifest.Validate.{validate}
use snowdeploy.Manifest.Rendered.{validate_rendered}
use snowdeploy.Journal.Defs.{State, is_terminal}
use snowdeploy.Effect.{Call, Answer}
use snowdeploy.Effect.Logic.{Protocol}
use snowdeploy.Deploy.Engine.{Options}

-- A run is idle, holds the engine's own lock `mu`, or counts as queued for a lock.
pub data Stand : Type 0 where
  idle in_mu queued : Stand

-- What passed a probe: the name of the unit's file, the unit, and the URL that was probed.
abbrev pub Passed : Type 0
Passed = Text × Text × Text

abbrev pub probed_at : Text → Option (Text × Text) → Option Passed
probed_at url none = none
probed_at url (some (name, u)) = some (name, u, url)

pub record Watch : Type 0 where
  -- the locks that the run holds, and where it stands
  pub service_held : Bool
  pub merge_held : Bool
  pub stand : Stand
  -- the open proposal, and whether its checks passed since it was last refused or changed
  pub proposal : Option ℕ
  pub passed : Bool
  -- the digest that the receipt is about
  pub target : Text
  -- the unit last written, with the name of its file; the one that was restarted since; the one that
  -- passed a probe since, with the URL of the probe; the digest seen to run
  pub unit : Option (Text × Text)
  pub live : Option (Text × Text)
  pub probed : Option Passed
  pub running : Option Text
  -- the newest journal update, and whether it was the receipt
  pub entry : Option (State × Text)
  pub receipt : Bool

-- `u` is a unit that passed both gates, rendered from a manifest that pins `d`; the file is named after
-- that manifest's service, and the URL is that of its health check.
abbrev pub IsUnitOf : Options → Text → Passed → Type 0
IsUnitOf o d (name, u, url) =
    (m : Manifest) × (tmpl : Text) × (o.applier.platform.render_template tmpl m ≡ ok u)
    × (validate o.applier.platform m o.applier.limits ≡ none)
    × (validate_rendered u ≡ none)
    × (m.image.digest ≡ d)
    × (name ≡ m.name ++ lit ".container")
    × (url ≡ m.health.url)

abbrev pub Probed : Options → Text → Option Passed → Type 0
Probed o d probed = (u : Passed) × (probed ≡ some u) × IsUnitOf o d u

-- What a receipt claims of the host.
abbrev pub Claims : Options → Text → Option Text → Option Passed → State → Type 0
Claims o target running probed State.healthy = (running ≡ some target) ⊎ Probed o target probed
Claims o target running probed State.rolled_back = (d : Text) × Probed o d probed
Claims o target running probed _ = Unit

abbrev pub Justified : Options → Watch → State → Type 0
Justified o g st = Claims o g.target g.running g.probed st

module _ (o : Options) (id : ℕ) (service : Text) (converges : Bool) where
  abbrev pub RunAllowed : Watch → Call → Type 0
  RunAllowed g Call.lock_mu = g.stand ≡ idle
  RunAllowed g Call.unlock_mu = g.stand ≡ in_mu
  RunAllowed g Call.queue_enter = g.stand ≡ idle
  RunAllowed g Call.queue_leave = g.stand ≡ queued
  RunAllowed g (Call.lock_service s) =
      (s ≡ service) × (g.stand ≡ queued) × (g.service_held ≡ false) × (g.merge_held ≡ false)
  RunAllowed g (Call.unlock_service s) =
      (s ≡ service) × (g.service_held ≡ true) × (g.merge_held ≡ false) × (g.receipt ≡ true)
  RunAllowed g Call.lock_merge =
      (converges ≡ false) × (g.stand ≡ queued) × (g.service_held ≡ true) × (g.merge_held ≡ false)
  RunAllowed g Call.unlock_merge = g.merge_held ≡ true
  RunAllowed g (Call.open_manifest_pr s content title body) = (s ≡ service) × (g.merge_held ≡ true)
  RunAllowed g (Call.wait_checks n poll) = (g.merge_held ≡ true) × (g.proposal ≡ some n)
  RunAllowed g (Call.merge n) = (g.merge_held ≡ true) × (g.proposal ≡ some n) × (g.passed ≡ true)
  RunAllowed g (Call.update_branch n) = (g.merge_held ≡ true) × (g.proposal ≡ some n)
  RunAllowed g (Call.close_pr n comment) = g.proposal ≡ some n
  RunAllowed g (Call.set_pr j n) = (j ≡ id) × (g.receipt ≡ false) × (g.proposal ≡ some n)
  RunAllowed g (Call.set_merge_sha j sha) = (j ≡ id) × (g.receipt ≡ false)
  RunAllowed g (Call.set_digests j old new) = (j ≡ id) × (g.receipt ≡ false) × (converges ≡ true)
  RunAllowed g (Call.progress j st detail) =
      (j ≡ id) × (g.receipt ≡ false) × (is_terminal st ≡ false)
  RunAllowed g (Call.finish j st detail) =
      (j ≡ id)
      × (g.receipt ≡ false)
      × (is_terminal st ≡ true)
      × (g.merge_held ≡ false)
      × Justified o g st
  RunAllowed g (Call.notify ev) = (ev.journal_id ≡ id) × (g.entry ≡ some (ev.state, ev.detail))
  RunAllowed g (Call.write_unit name u) =
      (g.service_held ≡ true)
      × (g.merge_held ≡ false)
      × (g.receipt ≡ false)
      × ((d : Text) × (url : Text) × IsUnitOf o d (name, u, url))
  RunAllowed g (Call.reload_and_restart s) =
      (g.service_held ≡ true)
      × (g.merge_held ≡ false)
      × (g.receipt ≡ false)
      × ((u : Text) × (g.unit ≡ some (s ++ lit ".container", u)))
  RunAllowed g (Call.probe url timeout interval) = g.receipt ≡ false
  RunAllowed g (Call.running_image s) = (s ≡ service) × (g.receipt ≡ false)
  RunAllowed g (Call.begin e) = ⊥
  RunAllowed g (Call.go r) = ⊥
  RunAllowed g _ = Unit

  abbrev pub run_after : Watch → (c : Call) → Answer c → Watch
  run_after g Call.lock_mu a = record g { stand = in_mu }
  run_after g Call.unlock_mu a = record g { stand = idle }
  run_after g Call.queue_enter a = record g { stand = queued }
  run_after g Call.queue_leave a = record g { stand = idle }
  run_after g (Call.lock_service s) none = record g { service_held = true }
  run_after g (Call.unlock_service s) a = record g { service_held = false }
  run_after g Call.lock_merge a = record g { merge_held = true }
  run_after g Call.unlock_merge a = record g { merge_held = false }
  run_after g (Call.open_manifest_pr s content title body) (ok n) = record g {
    proposal = some n;
    passed = false;
  }
  run_after g (Call.wait_checks n poll) (ok (passed, detail)) = record g { passed = passed }
  run_after g (Call.wait_checks n poll) (err e) = record g { passed = false }
  run_after g (Call.merge n) (ok sha) = record g { proposal = none; passed = false }
  run_after g (Call.merge n) (err e) = record g { passed = false }
  run_after g (Call.update_branch n) a = record g { passed = false }
  run_after g (Call.close_pr n comment) a = record g { proposal = none; passed = false }
  run_after g (Call.set_digests j old new) none = record g { target = new }
  run_after g (Call.progress j st detail) a = record g { entry = some (st, detail) }
  run_after g (Call.finish j st detail) a = record g { entry = some (st, detail); receipt = true }
  run_after g (Call.write_unit name u) none = record g {
    unit = some (name, u);
    live = none;
    probed = none;
    running = none;
  }
  run_after g (Call.write_unit name u) (some e) = record g {
    live = none;
    probed = none;
    running = none;
  }
  run_after g (Call.reload_and_restart s) none = record g {
    live = g.unit;
    probed = none;
    running = none;
  }
  run_after g (Call.reload_and_restart s) (some e) = record g {
    live = none;
    probed = none;
    running = none;
  }
  run_after g (Call.probe url timeout interval) none = record g { probed = probed_at url g.live }
  run_after g (Call.probe url timeout interval) (some e) = record g { probed = none }
  run_after g (Call.running_image s) (ok d) = record g { running = some d }
  run_after g (Call.running_image s) (err e) = record g { running = none }
  run_after g _ _ = g

  abbrev pub run_protocol : Protocol
  run_protocol = record { Watch = Watch; Allowed = RunAllowed; after = run_after }

-- A run at its start: it holds nothing, not even `mu`, and nothing is known.
abbrev pub started : Text → Watch
started target = record {
  service_held = false;
  merge_held = false;
  stand = idle;
  proposal = none;
  passed = false;
  target = target;
  unit = none;
  live = none;
  probed = none;
  running = none;
  entry = none;
  receipt = false;
}

-- A run at its end: a receipt is written, its event was the newest update's, nothing is held.
pub record IsSettled (g : Watch) : Type 0 where
  pub receipt_written : g.receipt ≡ true
  pub receipt_terminal :
      (st : State) × (detail : Text) × (g.entry ≡ some (st, detail)) × (is_terminal st ≡ true)
  pub service_released : g.service_held ≡ false
  pub merge_released : g.merge_held ≡ false
  pub no_mu_and_not_queued : g.stand ≡ idle
