-- ===== src/Tests/Daemon.antt =====
-- The theorems on the configuration, the probe, the unit files and podman.
use snowdeploy.Base.{
  ℕ, zero, suc, ◌≤◌, Text, lit, ◌≡◌, refl, true, false, List, [], ◌∷◌, Option, none, some, Error,
  errors_new, Result, ok, err, arith,
}
use snowdeploy.Base.Int.{ℤ, pos}
use snowdeploy.Script.{Keeps}
use snowdeploy.Config.{Config, load}
use snowdeploy.Config.Safe.{Visits}
use snowdeploy.Config.Loaded.{IsLoaded, load-IsLoaded}
use snowdeploy.Reconcile.Probe.{Attempt, probe}
use snowdeploy.Reconcile.Probe.Ends.{IsReport, probe-returns}
use snowdeploy.Reconcile.Units.{write_unit}
use snowdeploy.Reconcile.Units.Stages.{durably, IsInstalled, untouched}
use snowdeploy.Reconcile.Units.Durable.{write_unit-Keeps}

abbrev plain : Text → Text
plain t = t

abbrev in_order : List (Text × Text) → List (Text × Text)
in_order fields = fields

in_order-Visits : Visits in_order
in_order-Visits fields f = (λ h. h, λ h. h)

abbrev written : Config
written = record {
  listen = [];
  metrics_listen = [];
  repo_url = lit "https://github.com/acme/web";
  repo_branch = [];
  manifest_dir = [];
  template_dir = [];
  cache_dir = lit "/var/cache/snowdeploy";
  unit_dir = lit "/etc/containers/systemd";
  journal_path = lit "/var/lib/snowdeploy/journal.db";
  github_app_id = pos 1;
  github_install_id = pos 2;
  github_key_file = lit "/run/key";
  github_owner = lit "acme";
  github_repo = lit "web";
  cli_token_hash_file = [];
  proxy_secret_file = [];
  proxy_allowed_users = [];
  poll_interval = pos 0;
  drift_interval = pos 0;
  check_poll_interval = pos 0;
  probe_interval = pos 0;
  volume_prefixes = lit "/srv" ∷ [];
  env_file_prefixes = [];
}

abbrev one_file : Text → Result Text
one_file path = ok (lit "repo_url: …")

abbrev decodes : Text → Result Config
decodes raw = ok written

load-IsLoaded_example :
    IsLoaded one_file decodes
      (lit "/etc/snowdeploy.yaml")
      (load plain in_order one_file decodes (lit "/etc/snowdeploy.yaml"))
load-IsLoaded_example =
    load-IsLoaded plain in_order in_order-Visits one_file decodes (lit "/etc/snowdeploy.yaml")

abbrev refused_twice : ℕ → Attempt
refused_twice zero = record { build = none; response = ok 503; is_live = true; has_ended = false }
refused_twice (suc k) = record {
  build = none;
  response = err (errors_new (lit "context deadline exceeded"));
  is_live = false;
  has_ended = true;
}

abbrev at_ticks : ℕ → ℕ → ℕ → Attempt
at_ticks timeout interval = refused_twice

abbrev duration : ℤ → Text
duration d = lit "30s"

probe-returns_example :
    (o : Option Error) × (probe duration (lit "http://web") (pos 0) (pos 0) at_ticks 2 ≡ some o)
    × ((k : ℕ) × (k ≤ 1) × IsReport refused_twice duration (lit "http://web") (pos 0) k o)
probe-returns_example =
    probe-returns duration (lit "http://web") (pos 0) (pos 0) at_ticks 1 2 refl (omega arith)

write_unit-Keeps_example :
    Keeps
      (durably (lit "/etc/containers/systemd") (lit "web.container") (lit "[Container]"))
      (write_unit plain (lit "/etc/containers/systemd") (lit "web.container") (lit "[Container]"))
      IsInstalled
      untouched
write_unit-Keeps_example =
    write_unit-Keeps plain (lit "/etc/containers/systemd") (lit "web.container") (lit "[Container]")
