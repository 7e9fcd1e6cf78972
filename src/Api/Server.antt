-- ===== src/Api/Server.antt =====
-- internal/api/api.go and auth.go: who is identified, and how the mutating routes are answered. The
-- engine, the repository, the JSON decoder and the header fields are what a request meets.
use snowdeploy.Base.{
  ℕ, Text, lit, ◌==◌, is_empty, contains, any, eqb, Bool, not, ◌||◌, List, [], ◌∷◌, ◌++◌, Option,
  none, some, Error, Result, ok, err, if◌then◌else◌,
}
use snowdeploy.Api.Tokens.{Operation, Scope, allows, bearer_token, match_token}
use snowdeploy.Api.Proxy.{ProxyBoundary, identity}

pub record Headers : Type 0 where
  pub authorization : Text
  pub remote_user : List Text
  pub proxy_secret : List Text

-- The authenticator, with what reading the token file gives.
pub record Authenticator : Type 0 where
  pub token_hash_file : Text
  pub token_hashes : Result Text
  pub proxy : Option ProxyBoundary

-- A call of the engine: the service, the digest, the actor.
pub data EngineCall : Type 0 where
  deploys rolls_back : Text → Text → Text → EngineCall
  converges : Text → Text → EngineCall

pub data Body : Type 0 where
  accepted : ℕ → Bool → Body
  failure : Text → Body

pub record Response : Type 0 where
  pub code : ℕ
  pub body : Body

abbrev pub write_error : ℕ → Text → Response
write_error code message = record { code = code; body = failure message }

-- What SyncState and Manifest answer before the engine is called, what the engine answers, and what
-- SyncState answers behind it.
pub record Backend : Type 0 where
  pub sync_state : Bool × Option Error
  pub manifest : Text → Option Error
  pub engine : EngineCall → Result (ℕ × Bool)
  pub sync_state_behind : Bool × Option Error

-- A request of a mutating route: the name in its path, its headers and its body.
pub record Request : Type 0 where
  pub name : Text
  pub headers : Headers
  pub body : Text

abbrev reason_or : Option Error → Text
reason_or none = lit "the daemon has no usable copy of the configuration repository"
reason_or (some e) = e.text

unfoldable pub write_unavailable : Bool → Option Error → Response
write_unavailable synced reason = write_error (if synced then 502 else 503) (reason_or reason)

-- A handler's answer, with the calls of the engine that it made.
abbrev pub Answered : Type 0
Answered = Response × List EngineCall

abbrev pub refuse : Response → Answered
refuse r = (r, [])

-- strings.ContainsAny(name, "/\\") and strings.Contains(name, "..")
abbrev pub is_crafted : Text → Bool
is_crafted name =
    is_empty name || any (λ c. eqb c b'/' || eqb c b'\\') name || contains name (lit "..")

module _ (b : Backend) where
  abbrev pub answer : Result (ℕ × Bool) → Response
  answer (ok (id, joined)) = record { code = 202; body = accepted id joined }
  answer (err e) =
      if not b.sync_state_behind.0 || contains e.text (lit "sync configuration repository:")
      then write_unavailable b.sync_state_behind.0 b.sync_state_behind.1
      else write_error 400 e.text

  unfoldable pub dispatch : EngineCall → Answered
  unfolding write_unavailable
  dispatch c = (answer (b.engine c), c ∷ [])

  abbrev pub known : {A : Type 0} → (Response → A) → Option Error → (Text → A) → Text → A
  known refused (some e) serve name = refused (write_error 404 (lit "no such service"))
  known refused none serve name = serve name

  -- The check of the name in the path, before what the handler does with it.
  unfoldable pub service : {A : Type 0} → (Response → A) → (Text → A) → Text → A
  unfolding write_unavailable
  service refused serve name =
      if is_crafted name
      then refused (write_error 400 (lit "invalid service name"))
      else if not b.sync_state.0
      then refused (write_unavailable b.sync_state.0 b.sync_state.1)
      else known refused (b.manifest name) serve name

  -- The body as it is decoded; a body that is empty decodes to no digest.
  abbrev pub decoded : Result Text → (Text → Answered) → Answered
  decoded (ok digest) serve = serve digest
  decoded (err e) serve =
      let empty = serve [] in if e.text == lit "EOF" then empty else refuse (write_error 400 e.text)

  abbrev pub with_digest : Text → Text → Text → Answered
  with_digest actor name digest =
      if is_empty digest
      then refuse (write_error 400 (lit "digest is required"))
      else dispatch (deploys name digest actor)

  unfoldable pub handle_deploy : Result Text → Text → Text → Answered
  unfolding dispatch service
  handle_deploy body actor name = service refuse (λ n. decoded body (with_digest actor n)) name

  unfoldable pub handle_rollback : Result Text → Text → Text → Answered
  unfolding dispatch service
  handle_rollback body actor name =
      service refuse (λ n. decoded body (λ digest. dispatch (rolls_back n digest actor))) name

  unfoldable pub handle_converge : Text → Text → Answered
  unfolding dispatch service
  handle_converge actor name = service refuse (λ n. dispatch (converges n actor)) name

  unfoldable pub handle : Operation → Result Text → Text → Text → Answered
  unfolding handle_deploy handle_rollback handle_converge
  handle Operation.deploy body actor name = handle_deploy body actor name
  handle Operation.rollback body actor name = handle_rollback body actor name
  handle Operation.converge body actor name = handle_converge actor name

abbrev operation_text : Operation → Text
operation_text Operation.deploy = lit "deploy"
operation_text Operation.rollback = lit "rollback"
operation_text Operation.converge = lit "converge"

module _ (quote : Text → Text) (lower : ℕ → ℕ) (sha256 : Text → Text)
    (decode : Text → Result Text) where
  abbrev pub unscoped : Option Text → Option (Text × Scope)
  unscoped none = none
  unscoped (some user) = some (user, none)

  abbrev pub by_proxy : Option ProxyBoundary → Headers → Option (Text × Scope)
  by_proxy none h = none
  by_proxy (some p) h = unscoped (identity quote sha256 p h.remote_user h.proxy_secret)

  abbrev pub by_token : Option Text → Authenticator → Headers → Option (Text × Scope)
  by_token (some token) a h = match_token quote lower sha256 a.token_hash_file a.token_hashes token
  by_token none a h = by_proxy a.proxy h

  -- A request that carries a bearer is judged by it alone.
  unfoldable pub actor : Authenticator → Headers → Option (Text × Scope)
  actor a h = by_token (bearer_token h.authorization) a h

  abbrev pub authorized : Operation → Backend → Request → Option (Text × Scope) → Answered
  authorized act b r none = refuse (write_error 401 (lit "no authenticated identity"))
  authorized act b r (some (who, allowed)) =
      if allows allowed act
      then handle b act (decode r.body) who r.name
      else refuse (write_error 403 (lit "this token may not " ++ operation_text act))

  -- A mutating route.
  unfoldable pub authed_for : Operation → Authenticator → Backend → Request → Answered
  authed_for act a b r = authorized act b r (actor a r.headers)
