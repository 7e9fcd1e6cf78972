-- ===== src/Config.antt =====
-- internal/config/config.go: the daemon's configuration, its defaults and its checks. The file, the
-- YAML decoder, %q and the order in which Go walks a map are parameters.
pub mod Checks
pub mod Safe
pub mod Loaded
use snowdeploy.Base.{
  ℕ, Text, lit, ◌==◌, is_empty, trim_space, has_prefix, Bool, true, false, not, ◌||◌, ◌&&◌, List,
  [], ◌∷◌, ◌++◌, map, Option, none, some, Error, errors_new, errors_join, wrap, Result, ok, err,
  if◌then◌else◌,
}
use snowdeploy.Base.Int.{ℤ, pos, ltb_ℤ, eqb_ℤ}
use snowdeploy.Manifest.Defs.{Limits}

pub record Config : Type 0 where
  pub listen : Text
  pub metrics_listen : Text
  pub repo_url : Text
  pub repo_branch : Text
  pub manifest_dir : Text
  pub template_dir : Text
  pub cache_dir : Text
  pub unit_dir : Text
  pub journal_path : Text
  pub github_app_id : ℤ
  pub github_install_id : ℤ
  pub github_key_file : Text
  pub github_owner : Text
  pub github_repo : Text
  pub cli_token_hash_file : Text
  pub proxy_secret_file : Text
  pub proxy_allowed_users : List Text
  pub poll_interval : ℤ
  pub drift_interval : ℤ
  pub check_poll_interval : ℤ
  pub probe_interval : ℤ
  pub volume_prefixes : List Text
  pub env_file_prefixes : List Text

unfoldable pub limits : Config → Limits
limits c = record { volume_prefixes = c.volume_prefixes; env_file_prefixes = c.env_file_prefixes }

unfoldable pub set_string : Text → Text → Text
set_string field fallback = if is_empty (trim_space field) then fallback else field

unfoldable pub set_duration : ℤ → ℤ → ℤ
set_duration field fallback = if ltb_ℤ (pos 0) field then field else fallback

-- The durations in nanoseconds: 5 minutes, 5 minutes, 15 seconds and 2 seconds.
unfoldable pub apply_defaults : Config → Config
unfolding set_string set_duration
apply_defaults c = record c {
  listen = set_string c.listen (lit "127.0.0.1:8092");
  metrics_listen = set_string c.metrics_listen (lit "127.0.0.1:9105");
  repo_branch = set_string c.repo_branch (lit "main");
  manifest_dir = set_string c.manifest_dir (lit "deploy/manifests");
  template_dir = set_string c.template_dir (lit "deploy/templates");
  poll_interval = set_duration c.poll_interval (pos 300000000000);
  drift_interval = set_duration c.drift_interval (pos 300000000000);
  check_poll_interval = set_duration c.check_poll_interval (pos 15000000000);
  probe_interval = set_duration c.probe_interval (pos 2000000000);
}

-- `if failing { fail(message) }`
abbrev pub fail_when : Bool → Text → Option Error
fail_when failing message = if failing then some (errors_new message) else none

-- The errors, in the order of the checks.
abbrev pub collect : List (Option Error) → List Error
collect [] = []
collect (none ∷ os) = collect os
collect (some e ∷ os) = e ∷ collect os

abbrev pub is_loopback : Text → Bool
is_loopback addr = has_prefix addr (lit "127.0.0.1:") || has_prefix addr (lit "[::1]:")

abbrev pub is_absolute : Text → Bool
is_absolute p = has_prefix p (lit "/")

abbrev pub no_users : List Text → Bool
no_users [] = true
no_users (u ∷ us) = false

-- a != b
abbrev pub differ : Bool → Bool → Bool
differ true b = not b
differ false b = b

abbrev pub required_fields : Config → List (Text × Text)
required_fields c =
    (lit "repo_url", c.repo_url)
    ∷ (lit "github_key_file", c.github_key_file)
    ∷ (lit "github_owner", c.github_owner)
    ∷ (lit "github_repo", c.github_repo)
    ∷ []

abbrev pub check_required : Text × Text → Option Error
check_required (field, value) =
    fail_when (is_empty (trim_space value)) (field ++ lit " is required")

module _ (quote : Text → Text) where
  unfoldable pub check_loopback : Text → Text → Option Error
  check_loopback field addr = fail_when (not (is_loopback addr)) (
      field
      ++ lit " "
      ++ quote addr
      ++ lit " is not loopback (it must start with "
      ++ quote (lit "127.0.0.1:")
      ++ lit " or "
      ++ quote (lit "[::1]:")
      ++ lit ")")

  abbrev pub check_absolute : Text → Text → Option Error
  check_absolute field p =
      fail_when (not (is_absolute p))
        (field ++ lit " entry " ++ quote p ++ lit " is not an absolute path")

  -- `walk` is the order of a range over a map.
  module _ (walk : List (Text × Text) → List (Text × Text)) where
    abbrev pub prefix_checks : Config → List (Option Error)
    prefix_checks c =
        map (check_absolute (lit "volume_prefixes")) c.volume_prefixes
        ++ map (check_absolute (lit "env_file_prefixes")) c.env_file_prefixes

    abbrev pub identity_checks : Config → List (Option Error)
    identity_checks c =
        fail_when (eqb_ℤ c.github_app_id (pos 0)) (lit "github_app_id is required")
        ∷ fail_when (eqb_ℤ c.github_install_id (pos 0)) (lit "github_install_id is required")
        ∷ fail_when
            (differ (not (is_empty c.proxy_secret_file)) (not (no_users c.proxy_allowed_users)))
            (lit "proxy_secret_file and proxy_allowed_users must be set together")
        ∷ fail_when (not (is_empty c.proxy_secret_file) && not (is_absolute c.proxy_secret_file)) (
            lit "proxy_secret_file " ++ quote c.proxy_secret_file ++ lit " is not an absolute path")
        ∷ prefix_checks c

    abbrev pub checks : Config → List (Option Error)
    checks c =
        check_loopback (lit "listen") c.listen
        ∷ check_loopback (lit "metrics_listen") c.metrics_listen
        ∷ fail_when (c.listen == c.metrics_listen)
            (lit "listen and metrics_listen must differ (both " ++ c.listen ++ lit ")")
        ∷ (map check_required (walk (required_fields c)) ++ identity_checks c)

    unfoldable pub validate : Config → Option Error
    unfolding check_loopback
    validate c = errors_join (collect (checks c))

    abbrev pub checked : Text → Config → Option Error → Result Config
    checked path c none = ok c
    checked path c (some e) = err (wrap (lit "configuration " ++ path ++ lit ": " ++ e.text) e)

    abbrev pub decoded : Text → Result Config → Result Config
    decoded path (err e) = err (wrap (lit "parse configuration " ++ path ++ lit ": " ++ e.text) e)
    decoded path (ok c) = checked path (apply_defaults c) (validate (apply_defaults c))

    abbrev pub read : (Text → Result Config) → Text → Result Text → Result Config
    read decode path (err e) = err (wrap (lit "read configuration: " ++ e.text) e)
    read decode path (ok raw) = decoded path (decode raw)

    unfoldable pub load : (Text → Result Text) → (Text → Result Config) → Text → Result Config
    unfolding validate apply_defaults
    load read_file decode path = read decode path (read_file path)
