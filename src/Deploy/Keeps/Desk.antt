-- ===== src/Deploy/Keeps/Desk.antt =====
-- The protocol of `start` (internal/deploy/engine.go) and what it promises of its answer. It is a
-- specification, and models no code.
use snowdeploy.Base.{ℕ, Text, ◌≡◌, ◌⊎◌, Bool, true, false, Option, none, some, Result, ok, err}
use snowdeploy.Manifest.Defs.{Manifest}
use snowdeploy.Manifest.Validate.{is_digest}
use snowdeploy.Journal.Defs.{Action, Entry, is_converge}
use snowdeploy.Effect.{Call, Answer, PendingRun, RunRequest}
use snowdeploy.Effect.Logic.{Protocol}
use snowdeploy.Deploy.Digest.{set_digest}
use snowdeploy.Deploy.Start.{Started}

pub record Desk : Type 0 where
  -- whether `mu` is held, and the live entry that was read under it
  pub mu_held : Bool
  pub seen : Option PendingRun
  -- the manifest that was read, with its text
  pub read : Option (Manifest × Text)
  -- the previous healthy digest, where the journal was asked for it
  pub previous : Option Text
  -- the entry that the journal began, and its id
  pub begun : Option (Entry × ℕ)
  -- the entry that was registered, and the request that was launched
  pub registered : Option PendingRun
  pub launched : Option RunRequest

module _ (action : Action) (service actor : Text) where
  abbrev pub StartAllowed : Desk → Call → Type 0
  StartAllowed g Call.lock_mu = g.mu_held ≡ false
  StartAllowed g Call.unlock_mu = g.mu_held ≡ true
  StartAllowed g (Call.read_pending s) = (g.mu_held ≡ true) × (s ≡ service)
  StartAllowed g (Call.begin e) =
      (g.mu_held ≡ true)
      × (g.begun ≡ none)
      × (e.service ≡ service)
      × (e.action ≡ action)
      × (e.actor ≡ actor)
  StartAllowed g (Call.write_pending s p) =
      (g.mu_held ≡ true)
      × (g.seen ≡ none)
      × (s ≡ service)
      × (p.action ≡ action)
      × ((e : Entry) × (g.begun ≡ some (e, p.id)) × (p.digest ≡ e.new_digest))
  StartAllowed g (Call.go r) =
      (g.mu_held ≡ false)
      × (g.launched ≡ none)
      × (r.service ≡ service)
      × (r.action ≡ action)
      × ((e : Entry) × (g.begun ≡ some (e, r.id)) × (r.new_digest ≡ e.new_digest))
  StartAllowed g Call.now = Unit
  StartAllowed g Call.in_flight_add = g.mu_held ≡ false
  StartAllowed g (Call.read_manifest s) = (g.mu_held ≡ false) × (s ≡ service) × (g.read ≡ none)
  StartAllowed g (Call.previous_healthy_digest s d) =
      (g.mu_held ≡ false)
      × (s ≡ service)
      × ((m : Manifest) × (raw : Text) × (g.read ≡ some (m, raw)) × (d ≡ m.image.digest))
  StartAllowed g _ = ⊥

abbrev pub start_after : Desk → (c : Call) → Answer c → Desk
start_after g Call.lock_mu a = record g { mu_held = true }
start_after g Call.unlock_mu a = record g { mu_held = false }
start_after g (Call.read_pending s) p = record g { seen = p }
start_after g (Call.read_manifest s) (ok (m, raw)) = record g { read = some (m, raw) }
start_after g (Call.previous_healthy_digest s d) (ok found) = record g { previous = some found }
start_after g (Call.begin e) (ok id) = record g { begun = some (e, id) }
start_after g (Call.write_pending s p) a = record g { registered = some p }
start_after g (Call.go r) a = record g { launched = some r }
start_after g _ _ = g

-- The pending map is read and written, and the journal entry begun, under `mu` only; a run is
-- launched once, outside it, for the entry that was begun; a live entry is never overwritten; all of
-- it is about one service, and the entry about the action and the actor. Nothing
-- of the host, the repository's branch or a receipt is touched.
abbrev pub start_protocol : Action → Text → Text → Protocol
start_protocol action service actor = record {
  Watch = Desk;
  Allowed = StartAllowed action service actor;
  after = start_after;
}

abbrev pub idle : Desk
idle = record {
  mu_held = false;
  seen = none;
  read = none;
  previous = none;
  begun = none;
  registered = none;
  launched = none;
}

-- The manifest that a run writes: the one that was read for a converge, else that one with the new
-- digest in place of the old.
abbrev pub IsContent : Action → Text → Text → Text → Text → Type 0
IsContent action raw old new content =
    ((is_converge action ≡ true) × (content ≡ raw))
    ⊎ ((is_converge action ≡ false) × (set_digest raw old new ≡ ok content))

-- What `start` promises of its answer, for a digest that is wanted, by the one that
-- the manifest pins and the previous healthy one.
abbrev pub Answered :
    Action → Text → Text → (Text → Option Text → Text → Type 0) → Started → Desk → Type 0
Answered action service actor wants (err e) g =
    (g.mu_held ≡ false) × (g.launched ≡ none) × (g.registered ≡ none)
Answered action service actor wants (ok (id, true)) g =
    (g.mu_held ≡ false)
    × (g.launched ≡ none)
    × (g.begun ≡ none)
    × (g.registered ≡ none)
    × ((p : PendingRun) × (m : Manifest) × (raw : Text) × (g.seen ≡ some p)
        × (g.read ≡ some (m, raw))
        × (p.id ≡ id)
        × (is_converge p.action ≡ is_converge action)
        × wants m.image.digest g.previous p.digest
        × (is_digest p.digest ≡ true))
Answered action service actor wants (ok (id, false)) g =
    (g.mu_held ≡ false)
    × ((e : Entry) × (r : RunRequest) × (m : Manifest) × (raw : Text) × (g.begun ≡ some (e, id))
        × (g.launched ≡ some r)
        × (g.read ≡ some (m, raw))
        × (e.service ≡ service)
        × (e.action ≡ action)
        × (e.actor ≡ actor)
        × (e.old_digest ≡ m.image.digest)
        × wants m.image.digest g.previous e.new_digest
        × (is_digest e.new_digest ≡ true)
        × (r.id ≡ id)
        × (r.service ≡ service)
        × (r.action ≡ action)
        × (r.old_digest ≡ m.image.digest)
        × (r.new_digest ≡ e.new_digest)
        × (r.original_raw ≡ raw)
        × IsContent action raw m.image.digest r.new_digest r.new_content)

-- A target that is resolved, if it is, to a digest that the request wants.
abbrev pub Resolved : (Text → Type 0) → Result Text → Type 0
Resolved wants (ok digest) = wants digest
Resolved wants (err e) = Unit
