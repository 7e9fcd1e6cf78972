-- ===== src/Tests/Journals.antt =====
-- The theorems on the journal, at a table of three rows.
use snowdeploy.Base.{
  ℕ, ◌≡◌, refl, In, inl, inr, true, List, [], ◌∷◌, Option, none, some, Text, lit, ◌==◌, errors_is,
  errors_new, eqb, if◌then◌else◌, already_finished, ok, err, Result, false, arith,
}
use snowdeploy.Base.Int.{ℤ}
use snowdeploy.Journal.Defs.{Action, State, Entry}
use snowdeploy.Journal.Table.{Fault, at_exec, behind_exec, Table, explain_no_update, update, finish}
use snowdeploy.Journal.Queries.{recent, previous_healthy_digest}
use snowdeploy.Journal.Receipts.{Write, progress_to, begin_with, perform_all, receipt_kept}
use snowdeploy.Manifest.Defs.{Manifest}
use snowdeploy.Registry.{PollStatus}
use snowdeploy.Gitops.Mirror.{Repo, new_repo}
use snowdeploy.Api.Reads.{Sources, handle_services}
use snowdeploy.Api.Reads.Hidden.{over_mirror, told, handle_services-told}
use snowdeploy.Api.Snapshots.{snapshot_events}
use snowdeploy.Api.Snapshots.InFlight.{over}
use snowdeploy.Daemon.Orphans.Quiet.{fail_orphaned_deploys-quiet}
use snowdeploy.Journal.Ids.{IsSound}
use snowdeploy.Daemon.Orphans.{fail_orphaned_deploys}
use snowdeploy.Daemon.Orphans.Closed.{Restarts, fail_orphaned_deploys-Restarts}
use snowdeploy.Journal.Once.{finish_once}

abbrev row : ℕ → Text → State → Option ℕ → Entry
row id digest st finished = record {
  id = id;
  service = lit "web";
  action = Action.deploy;
  actor = lit "cli";
  old_digest = [];
  new_digest = digest;
  pr_number = 0;
  merge_sha = [];
  state = st;
  detail = [];
  started_at = some id;
  finished_at = finished;
}

abbrev done : Entry
done = row 1 (lit "a") State.healthy (some 5)

abbrev live : Entry
live = row 2 (lit "b") State.checks none

abbrev table : Table
table = record { rows = done ∷ live ∷ []; next_id = 3 }

table-IsSound : IsSound table
table-IsSound = omega arith

abbrev writes : List (Option Fault × Write)
writes =
    (none, progress_to 9 1 State.failed (lit "late"))
    ∷ (some (behind_exec (errors_new (lit "disk full"))), begin_with 9 live)
    ∷ []

receipt_kept_example : In done (perform_all writes table).rows
receipt_kept_example = receipt_kept writes done table refl (inl refl)

-- A server that lists one service.
abbrev no_manifest : Text → Result Manifest
no_manifest name = err (errors_new (lit "no manifest"))

abbrev not_running : Text → Result Text
not_running name = err (errors_new (lit "no such container"))

abbrev no_digest : Text → Option Text
no_digest repository = none

abbrev no_poll : Text → Option PollStatus
no_poll repository = none

abbrev no_rows : Text → ℤ → Result (List Entry)
no_rows service n = ok []

abbrev web_only : Sources
web_only = record {
  sync = ok (lit "aa");
  sync_state = (true, none);
  services = ok (lit "web" ∷ []);
  manifest = no_manifest;
  running_image = not_running;
  latest = no_digest;
  last_poll = no_poll;
  recent = no_rows;
  lookup_revision = none;
  repo_web_url = lit "https://github.com/acme/web";
}

abbrev mirror : Repo
mirror = new_repo (record {
  url = lit "https://github.com/acme/web";
  branch = [];
  cache_dir = lit "/var/cache";
  manifest_dir = lit "services";
  template_dir = lit "templates";
  token_fn = true;
})

abbrev plain : Text → Text
plain t = t

-- The driver fails at the receipt of row 7.
abbrev seventh : ℕ → Option Fault
seventh id = if eqb id 7 then some (at_exec (errors_new (lit "disk full"))) else none

abbrev noon : ℕ → ℕ
noon id = 12

closes_live : (fail_orphaned_deploys plain seventh noon none table).0 ≡ none
unfolding fail_orphaned_deploys
closes_live = refl

fail_orphaned_deploys-Restarts_example :
    Restarts plain seventh noon none table
      (fail_orphaned_deploys plain seventh noon none table).0
      (fail_orphaned_deploys plain seventh noon none table).1
fail_orphaned_deploys-Restarts_example =
    fail_orphaned_deploys-Restarts plain seventh noon none table table-IsSound

fail_orphaned_deploys-quiet_example :
    snapshot_events (over (fail_orphaned_deploys plain seventh noon none table).1 web_only) ≡ []
fail_orphaned_deploys-quiet_example =
    fail_orphaned_deploys-quiet plain seventh noon none table web_only table-IsSound closes_live

handle_services-told_example :
    handle_services
      (over_mirror (err (errors_new (lit "https://token@github.com"))) mirror web_only)
    ≡ told false false
unfolding new_repo
handle_services-told_example =
    handle_services-told (errors_new (lit "https://token@github.com")) mirror web_only

finish_once_example :
    let (e, t') = finish none 2 9 State.healthy (lit "ok") table in
    (e ≡ none)
    × In (record live { state = State.healthy; detail = lit "ok"; finished_at = some 9 }) t'.rows
    × ((change : Entry → Entry)
        → update none 2 change t' ≡ (some (explain_no_update none 2 t'), t'))
    × (errors_is (explain_no_update none 2 t') already_finished ≡ true)
finish_once_example =
    finish_once live 9 State.healthy (lit "ok") table table-IsSound (inr (inl refl)) refl

previous_digest_test : previous_healthy_digest none (lit "web") (lit "b") table ≡ ok (lit "a")
unfolding previous_healthy_digest lit ◌==◌
previous_digest_test = refl
