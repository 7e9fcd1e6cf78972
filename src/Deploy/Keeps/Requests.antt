-- ===== src/Deploy/Keeps/Requests.antt =====
-- Deploy, Rollback and Converge (internal/deploy/engine.go) keep to the protocol of `start`.
use snowdeploy.Base.{
  Option, none, some, Text, ◌≡◌, refl, sym, ◌⊎◌, inl, inr, ◌==◌, [], ◌∷◌, is_empty, ◌||◌, true,
  Bool-cases, some, Error, Result, ok, err,
}
use snowdeploy.Manifest.Defs.{Manifest}
use snowdeploy.Manifest.Validate.{is_digest}
use snowdeploy.Journal.Defs.{Action, is_converge}
use snowdeploy.Effect.{Prog}
use snowdeploy.Effect.Logic.{Protocol, Wp, Wp-if, Wp-bind}
use snowdeploy.Deploy.Engine.{Options}
use snowdeploy.Deploy.Start.{
  new_content, start_content, start_resolved, start_read, start, Started, request_deploy,
  request_rollback, request_converge,
}
use snowdeploy.Deploy.Keeps.Start.{start_registered-Wp}
use snowdeploy.Deploy.Keeps.Desk.{Desk, start_protocol, idle, Answered, IsContent, Resolved}

module _ (o : Options) (action : Action) (service actor : Text)
    (wants : Text → Option Text → Text → Type 0) where
  abbrev S : Protocol
  S = start_protocol action service actor

  abbrev Honest : Started → Desk → Type 0
  Honest = Answered action service actor wants

  -- The desk behind the read of a manifest, and of the previous healthy digest.
  abbrev read_desk : Manifest → Text → Option Text → Desk
  read_desk m raw previous = record idle { read = some (m, raw); previous = previous }

  new_content-IsContent :
      (current : Manifest) (raw digest content : Text)
      → new_content o action service actor current raw digest ≡ ok content
      → IsContent action raw current.image.digest digest content
  unfolding new_content
  new_content-IsContent current raw digest content h = elim (Bool-cases (is_converge action)) [
    | inl converges ↦ inl (converges, sym (ok_equal (rw converges at h)))
    | inr proposes ↦ elim (Bool-cases (current.image.digest == digest)) [
      | inl same ↦ absurd (err_ok (rw (proposes, same) at h))
      | inr differ ↦ inr (proposes, rw (proposes, differ) at h)
    ]
  ]
    where
      ok_equal : {a b : Text} → ◌≡◌ {A = Result Text} (ok a) (ok b) → a ≡ b
      ok_equal e = cc

      err_ok : {e : Error} {b : Text} → ◌≡◌ {A = Result Text} (err e) (ok b) → ⊥
      err_ok e = cc

  start_content-Wp :
      (current : Manifest) (raw digest : Text) (previous : Option Text) (r : Result Text)
      → new_content o action service actor current raw digest ≡ r
      → is_digest digest ≡ true
      → wants current.image.digest previous digest
      → Wp S
          (start_content o action service actor current raw digest r)
          Honest
          (read_desk current raw previous)
  unfolding start_content
  start_content-Wp current raw digest previous (err e) made pin wanted = (refl, refl, refl)
  start_content-Wp current raw digest previous (ok content) made pin wanted =
      start_registered-Wp
        (record {
          action = action;
          service = service;
          actor = actor;
          old_digest = current.image.digest;
          digest = digest;
          raw = raw;
          content = content;
        })
        current pin wants refl (new_content-IsContent current raw digest content made) previous
        wanted

  start_resolved-Wp :
      (current : Manifest) (raw : Text) (previous : Option Text) (r : Result Text)
      → Resolved (wants current.image.digest previous) r
      → Wp S
          (start_resolved o action service actor current raw r)
          Honest
          (read_desk current raw previous)
  unfolding start_resolved
  start_resolved-Wp current raw previous (err e) wanted = (refl, refl, refl)
  start_resolved-Wp current raw previous (ok digest) wanted =
      Wp-if S (is_digest digest) _ _ Honest (read_desk current raw previous)
        (λ pin. start_content-Wp current raw digest previous _ refl pin wanted)
        (λ bad. (refl, refl, refl))

  -- How a target is resolved changes nothing that the protocol watches but the previous digest.
  abbrev Resolves : (Text → Prog (Result Text)) → Type 1
  Resolves resolve =
      (current : Manifest) (raw : Text) (Q : Result Text → Desk → Type 0)
      → ((previous : Option Text) (r : Result Text)
          → Resolved (wants current.image.digest previous) r
          → Q r (read_desk current raw previous))
      → Wp S (resolve current.image.digest) Q (read_desk current raw none)

  start-Wp :
      (resolve : Text → Prog (Result Text))
      → Resolves resolve
      → Wp S (start o action service actor resolve) Honest idle
  unfolding start start_read
  start-Wp resolve resolves = (
    (refl, refl, refl),
    elim [
      | err e ↦ (refl, refl, refl)
      | ok (current, raw) ↦
          Wp-bind S (resolve current.image.digest) _ Honest (read_desk current raw none) (
            resolves current raw _
              (λ previous r wanted. start_resolved-Wp current raw previous r wanted))
    ],
  )

pub request_deploy-Wp :
    (o : Options) (service digest actor : Text)
    → Wp
        (start_protocol Action.deploy service actor)
        (request_deploy o service digest actor)
        (Answered Action.deploy service actor (λ old previous d. d ≡ digest))
        idle
unfolding request_deploy
request_deploy-Wp o service digest actor =
    Wp-if (start_protocol Action.deploy service actor) (is_digest digest) _ _
      (Answered Action.deploy service actor (λ old previous d. d ≡ digest)) idle
      (λ pin. start-Wp o Action.deploy service actor _ _ (λ current raw Q q. q none _ refl))
      (λ bad. (refl, refl, refl))

is_empty_nil : (t : Text) → is_empty t ≡ true → t ≡ []
is_empty_nil [] h = refl
is_empty_nil (c ∷ t) h = cc

pub request_rollback-Wp :
    (o : Options) (service to_digest actor : Text)
    → Wp
        (start_protocol Action.rollback service actor)
        (request_rollback o service to_digest actor)
        (Answered Action.rollback service actor
          (λ old previous d. ((to_digest ≡ []) × (previous ≡ some d)) ⊎ (d ≡ to_digest)))
        idle
unfolding request_rollback
request_rollback-Wp o service to_digest actor =
    Wp-if (start_protocol Action.rollback service actor) (is_empty to_digest || is_digest to_digest)
      _ _
      (Answered Action.rollback service actor
        (λ old previous d. ((to_digest ≡ []) × (previous ≡ some d)) ⊎ (d ≡ to_digest)))
      idle
      (λ fits. start-Wp o Action.rollback service actor _ _ (λ current raw Q q.
        Wp-if (start_protocol Action.rollback service actor) (is_empty to_digest) _ _ Q _
          (λ open_. (
            (refl, refl, (current, raw, refl, refl)),
            elim [
              | ok found ↦ q (some found) (ok found) (inl (is_empty_nil to_digest open_, refl))
              | err e ↦ q none (err e) tt
            ],
          ))
          (λ given. q none _ (inr refl))))
      (λ bad. (refl, refl, refl))

pub request_converge-Wp :
    (o : Options) (service actor : Text)
    → Wp
        (start_protocol Action.converge service actor)
        (request_converge o service actor)
        (Answered Action.converge service actor (λ old previous d. d ≡ old))
        idle
unfolding request_converge
request_converge-Wp o service actor =
    start-Wp o Action.converge service actor _ _ (λ current raw Q q. q none _ refl)
