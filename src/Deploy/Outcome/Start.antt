-- ===== src/Deploy/Outcome/Start.antt =====
-- What Deploy, Rollback and Converge answer (internal/deploy/engine.go), in any world.
use snowdeploy.Base.{Text, Option, some, ◌≡◌, ◌⊎◌, []}
use snowdeploy.Journal.Defs.{Action}
use snowdeploy.Effect.{Prog}
use snowdeploy.Effect.Run.{World, execute, Keeps, final, execute-Keeps}
use snowdeploy.Deploy.Engine.{Options}
use snowdeploy.Deploy.Start.{Started, request_deploy, request_rollback, request_converge}
use snowdeploy.Deploy.Keeps.Desk.{start_protocol, idle, Answered}
use snowdeploy.Deploy.Keeps.Requests.{request_deploy-Wp, request_rollback-Wp, request_converge-Wp}

-- A request in a world: its calls keep to the protocol of `start`, and its answer is honest, for
-- a digest that the request wants, by the one that the manifest pins and the previous healthy one.
abbrev pub IsHonest :
    (w : World)
    → Action
    → Text
    → Text
    → (Text → Option Text → Text → Type 0)
    → Prog Started
    → w.State
    → Type 0
IsHonest w action service actor wants p s =
    let r = execute w p s in
    let P = start_protocol action service actor in
    Keeps P idle r.2 × Answered action service actor wants r.0 (final P idle r.2)

-- In any world each of Deploy, Rollback and Converge reads the manifest and the pending entry of its
-- own service only, and keeps the pending map, the journal entry and the registration inside one
-- critical section. If it answers an id that was not joined, the journal began an entry of that id for
-- the service, the action and the actor, with the digest of the manifest that was read as the old one,
-- and one run was launched for it: of the service and the action, with both digests, the text that was
-- read, and as its new text that one for a converge, and else the one that set_digest makes of it. If
-- it answers that the click joined, a live entry of the service with that id was read, a converge if
-- and only if the click is one, and nothing was begun, launched or registered. In both cases the digest
-- is a sha256 pin: for Deploy the requested one, for Rollback the requested one if one was given,
-- and else the one that the journal answered as the previous healthy one, for Converge the one in the
-- manifest that was read. If it fails, nothing was launched or registered. The
-- lock is free in each case.
pub requests-IsHonest :
    (w : World) (o : Options) (service digest actor : Text) (s : w.State)
    → IsHonest w Action.deploy service actor
        (λ old previous d. d ≡ digest)
        (request_deploy o service digest actor)
        s
      × IsHonest w Action.rollback service actor
          (λ old previous d. ((digest ≡ []) × (previous ≡ some d)) ⊎ (d ≡ digest))
          (request_rollback o service digest actor)
          s
      × IsHonest w Action.converge service actor
          (λ old previous d. d ≡ old)
          (request_converge o service actor)
          s
requests-IsHonest w o service digest actor s = (
  execute-Keeps (start_protocol Action.deploy service actor) w
      (request_deploy o service digest actor)
      (Answered Action.deploy service actor (λ old previous d. d ≡ digest)) idle s
      (request_deploy-Wp o service digest actor),
  execute-Keeps (start_protocol Action.rollback service actor) w
      (request_rollback o service digest actor)
      (Answered Action.rollback service actor
        (λ old previous d. ((digest ≡ []) × (previous ≡ some d)) ⊎ (d ≡ digest)))
      idle s (request_rollback-Wp o service digest actor),
  execute-Keeps (start_protocol Action.converge service actor) w (request_converge o service actor)
      (Answered Action.converge service actor (λ old previous d. d ≡ old)) idle s
      (request_converge-Wp o service actor),
)
