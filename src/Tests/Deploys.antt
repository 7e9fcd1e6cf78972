-- ===== src/Tests/Deploys.antt =====
-- The theorems on deploys, in a world in which everything works.
use snowdeploy.Manifest.Defs.{Manifest}
use snowdeploy.Dict.{lookup}
use snowdeploy.Api.Metrics.{new_metrics}
use snowdeploy.Daemon.Watch.{check_drift}
use snowdeploy.Daemon.Watch.Gauges.{IsTold, check_drift-gauges}
use snowdeploy.Deploy.Drift.Notes.{IsInLine}
use snowdeploy.Base.{
  some, errors_new, List, err, Result, inl, ◌∷◌, ◌≡◌, ◌⊎◌, [], refl, none, some, Text, lit, count,
  count_from, has_prefix, drop_prefix, ok,
}
use snowdeploy.Journal.Defs.{Action}
use snowdeploy.Effect.Run.{Keeps, final}
use snowdeploy.Deploy.Start.{request_deploy, request_rollback, request_converge}
use snowdeploy.Deploy.Rewrite.{IsRewrite, set_digest-rewrites}
use snowdeploy.Deploy.Digest.{set_digest, replace_first}
use snowdeploy.Deploy.Outcome.Traces.{run_trace}
use snowdeploy.Deploy.Outcome.Queue.{lock_discipline, nothing_held, run-locks}
use snowdeploy.Deploy.Outcome.Proposals.{
  checks_first, no_proposals, run-checks_first, converge-no_proposal,
}
use snowdeploy.Deploy.Outcome.Host.{AllGated, run-gated}
use snowdeploy.Deploy.Outcome.Start.{IsHonest, requests-IsHonest}
use snowdeploy.Tests.World.{web_at, calm, options, request_of, digest_a, digest_b}

run-locks_example :
    Keeps lock_discipline nothing_held (run_trace calm options (request_of Action.deploy) digest_a)
    × (final lock_discipline nothing_held
          (run_trace calm options (request_of Action.deploy) digest_a)
        ≡ nothing_held)
run-locks_example = run-locks calm options (request_of Action.deploy) digest_a

run-checks_first_example :
    Keeps checks_first none (run_trace calm options (request_of Action.deploy) digest_a)
run-checks_first_example = run-checks_first calm options (request_of Action.deploy) digest_a

converge-no_proposal_example :
    Keeps no_proposals tt (run_trace calm options (request_of Action.converge) digest_a)
converge-no_proposal_example =
    converge-no_proposal calm options (request_of Action.converge) digest_a refl

run-gated_example : AllGated options (run_trace calm options (request_of Action.rollback) digest_a)
run-gated_example = run-gated calm options (request_of Action.rollback) digest_a

requests-IsHonest_example :
    IsHonest calm Action.deploy
      (lit "web")
      (lit "cli")
      (λ old previous d. d ≡ digest_b)
      (request_deploy options (lit "web") digest_b (lit "cli"))
      digest_a
    × IsHonest calm Action.rollback
        (lit "web")
        (lit "cli")
        (λ old previous d. ((digest_b ≡ []) × (previous ≡ some d)) ⊎ (d ≡ digest_b))
        (request_rollback options (lit "web") digest_b (lit "cli"))
        digest_a
    × IsHonest calm Action.converge
        (lit "web")
        (lit "cli")
        (λ old previous d. d ≡ old)
        (request_converge options (lit "web") (lit "cli"))
        digest_a
requests-IsHonest_example = requests-IsHonest calm options (lit "web") digest_b (lit "cli") digest_a

set_digest-rewrites_example :
    IsRewrite
      (lit "digest: old # pin")
      (lit "old")
      (lit "new")
      (set_digest (lit "digest: old # pin") (lit "old") (lit "new"))
set_digest-rewrites_example = set_digest-rewrites (lit "digest: old # pin") (lit "old") (lit "new")

set_digest_test :
    set_digest (lit "digest: old # pin") (lit "old") (lit "new") ≡ ok (lit "digest: new # pin")
unfolding set_digest lit count count_from has_prefix replace_first drop_prefix
set_digest_test = refl

abbrev one_manifest : Text → Result Manifest
one_manifest service = ok (web_at digest_a)

abbrev old_image : Text → Result Text
old_image service = ok digest_b

abbrev unlisted : Result (List Text)
unlisted = err (errors_new (lit "the mirror is stale"))

check_drift-gauges_example :
    IsTold unlisted
      (lit "web")
      (IsInLine one_manifest old_image (lit "web"))
      (lookup (lit "web") new_metrics.drift)
      (lookup
        (lit "web")
        (check_drift (ok (lit "web" ∷ [])) one_manifest old_image none unlisted new_metrics).drift)
check_drift-gauges_example =
    check_drift-gauges (lit "web" ∷ []) one_manifest old_image unlisted new_metrics (lit "web")
      (inl refl)
