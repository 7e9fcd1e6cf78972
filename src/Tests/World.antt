-- ===== src/Tests/World.antt =====
-- A concrete platform, options and world.
use snowdeploy.Base.{Text, lit, true, false, [], ◌∷◌, ◌++◌, none, ok}
use snowdeploy.Base.Int.{pos}
use snowdeploy.Platform.{Platform}
use snowdeploy.Manifest.Defs.{Manifest}
use snowdeploy.Reconcile.{Applier}
use snowdeploy.Journal.Defs.{Action}
use snowdeploy.Effect.{Call, Answer, RunRequest}
use snowdeploy.Effect.Run.{World}
use snowdeploy.Deploy.Engine.{Options}

abbrev pub digest_a : Text
digest_a = lit "sha256:aaaaaaaaaaaaaaaaaaaaaaaaaaaaaaaaaaaaaaaaaaaaaaaaaaaaaaaaaaaaaaaa"

abbrev pub digest_b : Text
digest_b = lit "sha256:bbbbbbbbbbbbbbbbbbbbbbbbbbbbbbbbbbbbbbbbbbbbbbbbbbbbbbbbbbbbbbbb"

abbrev pub web_at : Text → Manifest
web_at digest = record {
  name = lit "web";
  description = [];
  image = record { repository = lit "registry.example.com/acme/web"; digest = digest };
  template = lit "web.container.tmpl";
  port = pos 8080;
  network = lit "acme";
  env = [];
  env_files = lit "/etc/acme/web.env" ∷ [];
  volumes = lit "acme-data.volume:/data" ∷ lit "/srv/acme/web:/data:Z" ∷ [];
  health = record { url = lit "http://127.0.0.1:8080/healthz"; timeout = pos 45 };
}

abbrev pub platform : Platform
platform = record {
  quote = λ t. lit "\"" ++ t ++ lit "\"";
  duration_text = λ d. lit "45s";
  parse_url = λ t. ok (lit "http", lit "127.0.0.1:8080");
  decode_yaml = λ t. ok (web_at t);
  render_template =
      λ t m. ok (lit "[Container]\nImage=registry.example.com/acme/web@" ++ m.image.digest);
}

abbrev pub applier : Applier
applier = record {
  platform = platform;
  limits = record { volume_prefixes = lit "/srv" ∷ []; env_file_prefixes = lit "/etc" ∷ [] };
  probe_interval = 2;
}

abbrev pub options : Options
options = record {
  applier = applier;
  has_notify = true;
  check_poll = 15;
  revert_attempts = 3;
  revert_backoff = 30;
  merge_backoff = 5;
  repo_web_url = lit "https://github.com/acme/config";
}

abbrev pub request_of : Action → RunRequest
request_of action = record {
  id = 7;
  action = action;
  service = lit "web";
  old_digest = digest_a;
  new_digest = digest_b;
  original_raw = digest_a;
  new_content = digest_b;
  pr_number = 0;
  pr_url = [];
  merge_url = [];
  detail_prefix = [];
}

-- Everything works, and main holds the manifest that pins the digest of the state; a merge moves it.
abbrev pub answers : Text → (c : Call) → Answer c
answers main Call.now = 100
answers main Call.ctx_err = none
answers main (Call.sleep d) = false
answers main Call.sync = ok (lit "head")
answers main Call.sync_state = (true, none)
answers main (Call.read_manifest s) = ok (web_at main, main)
answers main (Call.read_template t) = ok t
answers main (Call.open_manifest_pr s content title body) = ok 12
answers main (Call.wait_checks n poll) = ok (true, [])
answers main (Call.merge n) = ok (lit "abc")
answers main (Call.update_branch n) = none
answers main (Call.close_pr n comment) = none
answers main (Call.begin e) = ok 7
answers main (Call.progress id st detail) = none
answers main (Call.finish id st detail) = none
answers main (Call.set_pr id n) = none
answers main (Call.set_digests id old new) = none
answers main (Call.set_merge_sha id sha) = none
answers main (Call.previous_healthy_digest s d) = ok digest_b
answers main (Call.running_image s) = ok main
answers main (Call.reload_and_restart s) = none
answers main (Call.write_unit name content) = none
answers main (Call.probe url timeout interval) = none
answers main (Call.lock_service s) = none
answers main (Call.read_pending s) = none
answers main _ = tt

abbrev pub merged : Call → Text → Text
merged (Call.merge n) main = digest_b
merged _ main = main

abbrev pub calm : World
calm = record { State = Text; answer = λ c main. (answers main c, merged c main) }
