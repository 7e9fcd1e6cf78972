-- ===== src/Tests/Runs.antt =====
-- How runs end, in a world in which everything works, and in two in which something fails.
use snowdeploy.Base.{
  ◌≡◌, refl, Bool, true, false, errors_new, ok, Option, none, some, Text, lit, ◌==◌, has_prefix,
  drop_prefix, trim_prefix, contains, is_suffix, last_after, is_space, trim_left, trim_space, cut,
  split, join, count, count_from,
}
use snowdeploy.Deploy.Engine.{
  positive_or, new, event, sync_failure, emit, finish, fail, lock_merge_queue, lock, close_pr,
}
use snowdeploy.Deploy.Digest.{
  replace_first, set_digest, short_digest, action_text, pr_title, pr_body,
}
use snowdeploy.Deploy.Merge.{
  after_backoff, after_update, after_ctx, after_merge, after_checks, merge_from,
  merge_through_checks,
}
use snowdeploy.Deploy.Apply.{
  report_phase, after_template, apply_manifest, apply_pinned, apply_synced, apply_merged,
}
use snowdeploy.Deploy.Converge.{
  converge_applied, converge_settled, converge_recorded, converge_read, converge_synced, converge,
}
use snowdeploy.Deploy.Run.{
  run_applied, run_reapply, run_already, run_pinned, run_recorded, run_merged, run_opened,
  run_proposed, run_fresh, run_current, run_locked, run_queued, run_synced, run,
}
use snowdeploy.Reconcile.{
  unit_name, probe_unit, restart_unit, write_and_restart, check_rendered, after_render,
  after_validate, apply,
}
use snowdeploy.Manifest.Validate.{
  is_digest, is_named_volume, validate_repository, validate_health_url, check_volumes,
  check_env_files, validate_errors, validate,
}
use snowdeploy.Manifest.Paths.{
  clean_step, clean_elements, clean_text, clean, under_some, validate_host_path,
}
use snowdeploy.Manifest.Rendered.{
  forbidden_key, forbidden_podman_args, has_any_prefix, loopback_publish_prefixes, check_args,
  check_value, check_key, setting, check_setting, check_lines, validate_rendered,
}
use snowdeploy.Deploy.Rollback.{
  parse, report_restore, restore_template, restore_parsed, restore_previous, revert_opened,
  revert_once, revert_paused, revert_ctx, revert_tried, revert_from, revert_main, rollback_reverted,
  rollback_restored, rollback,
}
use snowdeploy.Manifest.Defs.{apply_defaults}
use snowdeploy.Journal.Defs.{Action, State}
use snowdeploy.Effect.Run.{World, execute, final}
use snowdeploy.Effect.{Call, Answer}
use snowdeploy.Deploy.Protocol.{started}
use snowdeploy.Deploy.Keeps.Plumbing.{protocol}
use snowdeploy.Deploy.Outcome.Traces.{run_trace}
use snowdeploy.Tests.World.{calm, answers, merged, options, request_of, digest_a, digest_b}

abbrev state_of : Option (State × Text) → Option State
state_of none = none
state_of (some (st, detail)) = some st

-- The first probe fails.
abbrev sick_answers : Text × Bool → (c : Call) → Answer c
sick_answers (main, true) (Call.probe url timeout interval) = none
sick_answers (main, false) (Call.probe url timeout interval) = some (errors_new (lit "refused"))
sick_answers (main, probed) c = answers main c

abbrev probed_by : Call → Bool → Bool
probed_by (Call.probe url timeout interval) b = true
probed_by _ b = b

abbrev sick : World
sick = record {
  State = Text × Bool;
  answer = λ c s. (sick_answers s c, (merged c s.0, probed_by c s.1));
}

-- The checks of the proposal fail.
abbrev red_answers : Text → (c : Call) → Answer c
red_answers main (Call.wait_checks n poll) = ok (false, lit "lint failed")
red_answers main c = answers main c

abbrev red : World
red = record { State = Text; answer = λ c main. (red_answers main c, merged c main) }

abbrev outcome : (w : World) → Action → w.State → Option State
outcome w action s =
    state_of
      (final (protocol options (request_of action)) (started digest_b)
        (run_trace w options (request_of action) s)).entry

deploy_test : outcome calm Action.deploy digest_a ≡ some State.healthy
deploy_test =
    unfold execute lit ◌==◌ has_prefix drop_prefix trim_prefix contains is_suffix last_after
      is_space trim_left trim_space cut split join count count_from positive_or new event
      sync_failure emit finish fail lock_merge_queue lock close_pr replace_first set_digest
      short_digest action_text pr_title pr_body after_backoff after_update after_ctx after_merge
      after_checks merge_from merge_through_checks report_phase after_template apply_manifest
      apply_pinned apply_synced apply_merged converge_applied converge_settled converge_recorded
      converge_read converge_synced converge run_applied run_reapply run_already run_pinned
      run_recorded run_merged run_opened run_proposed run_fresh run_current run_locked run_queued
      run_synced run unit_name probe_unit restart_unit write_and_restart check_rendered after_render
      after_validate apply is_digest is_named_volume validate_repository validate_health_url
      check_volumes check_env_files validate_errors validate clean_step clean_elements clean_text
      clean under_some validate_host_path forbidden_key forbidden_podman_args has_any_prefix
      loopback_publish_prefixes check_args check_value check_key setting check_setting check_lines
      validate_rendered in
    refl

pinned_test : outcome calm Action.deploy digest_b ≡ some State.healthy
pinned_test =
    unfold execute lit ◌==◌ has_prefix drop_prefix trim_prefix contains is_suffix last_after
      is_space trim_left trim_space cut split join count count_from positive_or new event
      sync_failure emit finish fail lock_merge_queue lock close_pr replace_first set_digest
      short_digest action_text pr_title pr_body after_backoff after_update after_ctx after_merge
      after_checks merge_from merge_through_checks report_phase after_template apply_manifest
      apply_pinned apply_synced apply_merged converge_applied converge_settled converge_recorded
      converge_read converge_synced converge run_applied run_reapply run_already run_pinned
      run_recorded run_merged run_opened run_proposed run_fresh run_current run_locked run_queued
      run_synced run unit_name probe_unit restart_unit write_and_restart check_rendered after_render
      after_validate apply is_digest is_named_volume validate_repository validate_health_url
      check_volumes check_env_files validate_errors validate clean_step clean_elements clean_text
      clean under_some validate_host_path forbidden_key forbidden_podman_args has_any_prefix
      loopback_publish_prefixes check_args check_value check_key setting check_setting check_lines
      validate_rendered in
    refl

converge_test : outcome calm Action.converge digest_a ≡ some State.healthy
converge_test =
    unfold execute lit ◌==◌ has_prefix drop_prefix trim_prefix contains is_suffix last_after
      is_space trim_left trim_space cut split join count count_from positive_or new event
      sync_failure emit finish fail lock_merge_queue lock close_pr replace_first set_digest
      short_digest action_text pr_title pr_body after_backoff after_update after_ctx after_merge
      after_checks merge_from merge_through_checks report_phase after_template apply_manifest
      apply_pinned apply_synced apply_merged converge_applied converge_settled converge_recorded
      converge_read converge_synced converge run_applied run_reapply run_already run_pinned
      run_recorded run_merged run_opened run_proposed run_fresh run_current run_locked run_queued
      run_synced run unit_name probe_unit restart_unit write_and_restart check_rendered after_render
      after_validate apply is_digest is_named_volume validate_repository validate_health_url
      check_volumes check_env_files validate_errors validate clean_step clean_elements clean_text
      clean under_some validate_host_path forbidden_key forbidden_podman_args has_any_prefix
      loopback_publish_prefixes check_args check_value check_key setting check_setting check_lines
      validate_rendered in
    refl

sick_test : outcome sick Action.deploy (digest_a, false) ≡ some State.rolled_back
sick_test =
    unfold execute apply_defaults parse report_restore restore_template restore_parsed
      restore_previous revert_opened revert_once revert_paused revert_ctx revert_tried revert_from
      revert_main rollback_reverted rollback_restored rollback lit ◌==◌ has_prefix drop_prefix
      trim_prefix contains is_suffix last_after is_space trim_left trim_space cut split join count
      count_from positive_or new event sync_failure emit finish fail lock_merge_queue lock close_pr
      replace_first set_digest short_digest action_text pr_title pr_body after_backoff after_update
      after_ctx after_merge after_checks merge_from merge_through_checks report_phase after_template
      apply_manifest apply_pinned apply_synced apply_merged converge_applied converge_settled
      converge_recorded converge_read converge_synced converge run_applied run_reapply run_already
      run_pinned run_recorded run_merged run_opened run_proposed run_fresh run_current run_locked
      run_queued run_synced run unit_name probe_unit restart_unit write_and_restart check_rendered
      after_render after_validate apply is_digest is_named_volume validate_repository
      validate_health_url check_volumes check_env_files validate_errors validate clean_step
      clean_elements clean_text clean under_some validate_host_path forbidden_key
      forbidden_podman_args has_any_prefix loopback_publish_prefixes check_args check_value
      check_key setting check_setting check_lines validate_rendered in
    refl

red_test : outcome red Action.deploy digest_a ≡ some State.failed
red_test =
    unfold execute lit ◌==◌ has_prefix drop_prefix trim_prefix contains is_suffix last_after
      is_space trim_left trim_space cut split join count count_from positive_or new event
      sync_failure emit finish fail lock_merge_queue lock close_pr replace_first set_digest
      short_digest action_text pr_title pr_body after_backoff after_update after_ctx after_merge
      after_checks merge_from merge_through_checks report_phase after_template apply_manifest
      apply_pinned apply_synced apply_merged converge_applied converge_settled converge_recorded
      converge_read converge_synced converge run_applied run_reapply run_already run_pinned
      run_recorded run_merged run_opened run_proposed run_fresh run_current run_locked run_queued
      run_synced run unit_name probe_unit restart_unit write_and_restart check_rendered after_render
      after_validate apply is_digest is_named_volume validate_repository validate_health_url
      check_volumes check_env_files validate_errors validate clean_step clean_elements clean_text
      clean under_some validate_host_path forbidden_key forbidden_podman_args has_any_prefix
      loopback_publish_prefixes check_args check_value check_key setting check_setting check_lines
      validate_rendered in
    refl
