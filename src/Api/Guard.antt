-- ===== src/Api/Guard.antt =====
-- Which requests reach the engine (internal/api/api.go).
use snowdeploy.Base.{
  ℕ, Text, ◌≡◌, ◌≢◌, ◌⊎◌, Bool, true, false, [], ◌∷◌, Option, none, some, Result, ok, err,
}
use snowdeploy.Api.Tokens.{Operation, Scope, allows}
use snowdeploy.Api.Server.{
  EngineCall, deploys, rolls_back, converges, Response, accepted, Backend, Answered, is_crafted,
}

-- The call is the operation's, for the service and the actor; a deploy names a digest.
abbrev pub IsCallOf : Operation → Text → Text → EngineCall → Type 0
IsCallOf Operation.deploy name who (deploys n digest w) = (n ≡ name) × (digest ≢ []) × (w ≡ who)
IsCallOf Operation.rollback name who (rolls_back n digest w) = (n ≡ name) × (w ≡ who)
IsCallOf Operation.converge name who (converges n w) = (n ≡ name) × (w ≡ who)
IsCallOf _ name who _ = ⊥

-- What the client is told of the engine's answer.
abbrev pub IsTold : Result (ℕ × Bool) → Response → Type 0
IsTold (ok (id, joined)) r = r ≡ record { code = 202; body = accepted id joined }
IsTold (err e) r = r.code ≢ 202

-- Nothing is called and the request is not accepted, or the engine is called once.
abbrev pub IsServed : Operation → Backend → Text → Text → Answered → Type 0
IsServed act b name who (r, []) = r.code ≢ 202
IsServed act b name who (r, c ∷ []) =
    (is_crafted name ≡ false)
    × (b.sync_state.0 ≡ true)
    × (b.manifest name ≡ none)
    × IsCallOf act name who c
    × IsTold (b.engine c) r
IsServed act b name who (r, c ∷ d ∷ cs) = ⊥

module _ (b : Backend) where
  -- The name passed all checks.
  abbrev Admits : Text → Type 0
  Admits name = (is_crafted name ≡ false) × (b.sync_state.0 ≡ true) × (b.manifest name ≡ none)

-- Somebody is identified whose scope allows the operation.
abbrev pub IsEntitled : Operation → Option (Text × Scope) → Text → Type 0
IsEntitled act none who = ⊥
IsEntitled act (some (w, allowed)) who = (w ≡ who) × (allows allowed act ≡ true)

-- Either nothing reaches the engine and the request is not accepted, or it is served for somebody
-- who is entitled.
abbrev pub IsGuarded : Operation → Backend → Text → Option (Text × Scope) → Answered → Type 0
IsGuarded act b name identified out =
    ((out.1 ≡ []) × (out.0.code ≢ 202))
    ⊎ ((who : Text) × IsEntitled act identified who × IsServed act b name who out)
