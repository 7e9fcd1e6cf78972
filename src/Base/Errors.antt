-- ===== src/Base/Errors.antt =====
-- Go's `error`: its message, and the sentinels that errors.Is finds in its chain.
use mathlib.Core.Bool.{Bool, true, false}
use mathlib.Core.Option.{Option, none, some}
use mathlib.Core.List.{List, [], ◌∷◌, ◌++◌}
use snowdeploy.Base.Lists.{any}
use snowdeploy.Base.Strings.{Text, lit}

pub data Sentinel : Type 0 where
  already_at_digest no_healthy_deploy already_finished not_found : Sentinel
  credential_unavailable canceled deadline_exceeded : Sentinel
  never_synced credential_unreadable remote_unreachable : Sentinel
  already_up_to_date repository_not_exists : Sentinel

pub Sentinel-discrete : Discrete Sentinel
Sentinel-discrete = hlevel

pub record Error : Type 0 where
  pub text : Text
  pub chain : List Sentinel

pub data Result {ℓ} (A : Type ℓ) : Type ℓ where
  ok : A → Result A
  err : Error → Result A

-- errors.New
abbrev pub errors_new : Text → Error
errors_new t = record { text = t; chain = [] }

-- fmt.Errorf("…%w…", e) with the text already formatted.
abbrev pub wrap : Text → Error → Error
wrap t e = record e { text = t }

abbrev pub same_sentinel : Sentinel → Sentinel → Bool
same_sentinel already_at_digest already_at_digest = true
same_sentinel no_healthy_deploy no_healthy_deploy = true
same_sentinel already_finished already_finished = true
same_sentinel not_found not_found = true
same_sentinel credential_unavailable credential_unavailable = true
same_sentinel canceled canceled = true
same_sentinel deadline_exceeded deadline_exceeded = true
same_sentinel never_synced never_synced = true
same_sentinel credential_unreadable credential_unreadable = true
same_sentinel remote_unreachable remote_unreachable = true
same_sentinel already_up_to_date already_up_to_date = true
same_sentinel repository_not_exists repository_not_exists = true
same_sentinel _ _ = false

-- errors.Is
abbrev pub errors_is : Error → Sentinel → Bool
errors_is e s = any (λ t. same_sentinel t s) e.chain

-- errors.Join: nil for no errors, otherwise the messages on a line each.
abbrev pub join_onto : Error → List Error → Error
join_onto e [] = e
join_onto e (f ∷ es) =
    let rest = join_onto f es in
    record { text = e.text ++ lit "\n" ++ rest.text; chain = e.chain ++ rest.chain }

abbrev pub errors_join : List Error → Option Error
errors_join [] = none
errors_join (e ∷ es) = some (join_onto e es)
