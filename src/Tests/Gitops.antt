-- ===== src/Tests/Gitops.antt =====
-- The theorems on the mirror and on the GitHub client.
use snowdeploy.Base.{
  ℕ, zero, suc, ◌≤◌, ◌<◌, Text, lit, ◌≡◌, refl, ◌==◌, contains, ◌≢◌, true, false, List, [], ◌∷◌,
  Option, none, some, Error, Sentinel, Result, ok, err, arith, inl, inr,
}
use snowdeploy.Base.Int.{pos}
use snowdeploy.Script.{Keeps, run}
use snowdeploy.Gitops.Mirror.{RepoConfig, Repo, new_repo, sync}
use snowdeploy.Gitops.Mirror.Standing.{Attempts, after, Refines, after-Refines}
use snowdeploy.Gitops.Fetch.{fetch_and_reset}
use snowdeploy.Gitops.Fetch.Scope.{scope, IsMirrored, unseen, fetch_and_reset-Keeps}
use snowdeploy.Gitops.Services.{DirEntry, services}
use snowdeploy.Gitops.GitHub.{
  Query, Reply, GitHubAppConfig, Contents, no_file, Opened, opened, new_github_app,
}
use snowdeploy.Gitops.GitHub.Propose.{open_manifest_pr}
use snowdeploy.Gitops.GitHub.Connected.{SucceedsIff}
use snowdeploy.Gitops.GitHub.Outcomes.{settle-SucceedsIff}
use snowdeploy.Gitops.Checks.{CheckRun, CheckRuns, summarize_checks, Answers, Waited, wait_checks}
use snowdeploy.Gitops.Checks.Runs.{Waits, Passes}
use snowdeploy.Gitops.Checks.Verdict.{IsVerdict, summarize_checks-IsVerdict}
use snowdeploy.Gitops.Checks.Waiting.{IsAnswer, Sees, wait_checks-returns, wait_checks-passes}

abbrev config : RepoConfig
config = record {
  url = lit "https://github.com/acme/web";
  branch = [];
  cache_dir = lit "/var/cache/snowdeploy";
  manifest_dir = lit "deploy/manifests";
  template_dir = lit "deploy/templates";
  token_fn = true;
}

abbrev sealed : Error
sealed = record { text = lit "no key"; chain = Sentinel.credential_unavailable ∷ [] }

abbrev sealed_after_sync : Attempts
sealed_after_sync = err sealed ∷ ok (lit "abc") ∷ err sealed ∷ []

after-Refines_example : Refines sealed_after_sync (after sealed_after_sync config)
after-Refines_example = after-Refines sealed_after_sync config

fetch_and_reset-Keeps_example :
    Keeps (scope config) (fetch_and_reset config) (IsMirrored config) unseen
fetch_and_reset-Keeps_example = fetch_and_reset-Keeps config

abbrev synced_repo : Repo
synced_repo = (sync (ok (lit "abc")) (new_repo config)).0

abbrev three_entries : Text → Result (List DirEntry)
three_entries dir = ok (
    record { name = lit "web.yaml"; is_dir = false }
    ∷ record { name = lit "api.yaml"; is_dir = false }
    ∷ record { name = lit "notes.md"; is_dir = false }
    ∷ [])

services_sorted : services three_entries synced_repo ≡ ok (lit "api" ∷ lit "web" ∷ [])
unfolding services lit new_repo sync ◌==◌
services_sorted = refl

abbrev plain : Text → Text
plain t = t

abbrev same_code : ℕ → ℕ
same_code c = c

abbrev app : GitHubAppConfig
app = record {
  app_id = pos 1;
  installation_id = pos 2;
  key_path = lit "/run/key";
  owner = lit "acme";
  repo = lit "web";
  manifest_dir = lit "deploy/manifests";
  base_branch = lit "main";
  base_url = [];
}

abbrev willing : (q : Query) → Reply q
willing (Query.read_key path) = ok (lit "key")
willing (Query.new_transport key) = none
willing Query.mint_token = ok (lit "token")
willing Query.new_client = none
willing (Query.get_ref ref) = ok (lit "base")
willing (Query.create_ref ref sha) = none
willing (Query.get_contents path branch) = no_file
willing (Query.create_file path message content branch sha) = none
willing (Query.create_pr title head base body) = opened 7
willing (Query.list_prs head base) = ok []
willing (Query.update_branch n) = none
willing (Query.merge_pr n method) = ok (record { merged = true; sha = lit "abc"; message = [] })
willing (Query.create_comment n body) = none
willing (Query.edit_pr n state) = none

opens_seven :
    run willing (open_manifest_pr plain plain same_code app (lit "web") (lit "pin") (lit "t") [])
    ≡ ok 7
unfolding open_manifest_pr lit ◌==◌ contains
opens_seven = refl

settle-SucceedsIff_example : SucceedsIff same_code app 7 willing
settle-SucceedsIff_example = settle-SucceedsIff same_code app 7 willing

abbrev verify : Text → Text → CheckRun
verify status conclusion = record { name = lit "verify"; status = status; conclusion = conclusion }

abbrev running : Option CheckRuns
running = some (record { total = 1; runs = verify (lit "in_progress") [] ∷ [] })

abbrev green : Option CheckRuns
green = some (record { total = 1; runs = verify (lit "completed") (lit "success") ∷ [] })

summarize_checks-IsVerdict_example : IsVerdict running (summarize_checks plain running)
summarize_checks-IsVerdict_example = summarize_checks-IsVerdict plain running

abbrev round : Option CheckRuns → Option Error → Answers
round runs ended = record { head = ok (lit "abc"); runs = λ sha. ok runs; ended = ended }

abbrev two_rounds : ℕ → Answers
two_rounds zero = round running none
two_rounds (suc k) = round green (some sealed)

abbrev every : ℕ → ℕ → Answers
every interval = two_rounds

wait_checks-returns_example :
    (w : Waited) × (wait_checks plain 7 none (pos 0) every 2 ≡ some w)
    × ((k : ℕ) × (k ≤ 1) × IsAnswer (two_rounds k) w)
wait_checks-returns_example =
    wait_checks-returns plain 7 (pos 0) every 1 sealed refl 2 (omega arith)

in_progress : lit "in_progress" ≢ lit "completed"
unfolding lit
in_progress e = cc

running-Waits : Sees Waits (round running none)
running-Waits = record {
  sha = lit "abc";
  runs = running;
  head = refl;
  seen = refl;
  are = inr (
      inr (record {
        green = [];
        run = verify (lit "in_progress") [];
        others = [];
        split = refl;
        before = tt;
        is = in_progress;
      }));
}

green-Passes : Sees Passes (round green (some sealed))
green-Passes = record {
  sha = lit "abc";
  runs = green;
  head = refl;
  seen = refl;
  are = (λ e. omega arith, λ e. cc, ((refl, inl refl), tt));
}

before_green : (k : ℕ) → k < 1 → Sees Waits (two_rounds k) × ((two_rounds k).ended ≡ none)
before_green zero lt = (running-Waits, refl)
before_green (suc k) lt = absurd (omega arith)

wait_checks-passes_example :
    (w : Waited) × (wait_checks plain 7 none (pos 0) every 2 ≡ some w)
    × (w.passed ≡ true)
    × (w.failure ≡ none)
wait_checks-passes_example =
    wait_checks-passes plain 7 (pos 0) every 1 before_green green-Passes 2 (omega arith)
