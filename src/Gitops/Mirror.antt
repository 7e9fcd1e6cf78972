-- ===== src/Gitops/Mirror.antt =====
-- internal/gitops/repo.go: the state of the mirror, and the reads of it. The fetch, the file system
-- and the manifest decoder are parameters.
pub mod Standing
use snowdeploy.Base.{
  Text, lit, Bool, true, false, not, List, [], ◌∷◌, ◌++◌, Option, none, some, Error, Sentinel,
  errors_new, errors_is, wrap, Result, ok, err, if◌then◌else◌, is_empty,
}
use snowdeploy.Manifest.Defs.{Manifest}
use snowdeploy.Gitops.Names.{join_path, check_name}

-- ErrCredentialUnavailable of github.go
abbrev pub credential_unavailable : Error
credential_unavailable = record {
  text = lit "github app credential unavailable";
  chain = Sentinel.credential_unavailable ∷ [];
}

abbrev pub never_synced : Error
never_synced = record {
  text =
      lit
        "the daemon has not read the configuration repository yet, so it does not know which services exist";
  chain = Sentinel.never_synced ∷ [];
}

abbrev pub credential_unreadable : Error
credential_unreadable = record {
  text =
      credential_unavailable.text
      ++ lit ": the daemon has no copy of the merged manifests and cannot tell "
      ++ lit "which services exist; the secret store is probably sealed";
  chain = Sentinel.credential_unreadable ∷ credential_unavailable.chain;
}

abbrev pub remote_unreachable : Error
remote_unreachable = record {
  text =
      lit "the configuration repository could not be fetched, "
      ++ lit "so the daemon has no current copy of the merged manifests";
  chain = Sentinel.remote_unreachable ∷ [];
}

unfoldable pub classify_sync_failure : Error → Error
classify_sync_failure e =
    if errors_is e Sentinel.credential_unavailable
    then credential_unreadable
    else remote_unreachable

-- A TokenFn that is nil is false here; what it answers is the fetch's.
pub record RepoConfig : Type 0 where
  pub url : Text
  pub branch : Text
  pub cache_dir : Text
  pub manifest_dir : Text
  pub template_dir : Text
  pub token_fn : Bool

pub record Repo : Type 0 where
  pub cfg : RepoConfig
  pub synced : Bool
  pub failure : Option Error

unfoldable pub new_repo : RepoConfig → Repo
new_repo cfg = record {
  cfg = if is_empty cfg.branch then record cfg { branch = lit "main" } else cfg;
  synced = false;
  failure = none;
}

unfoldable pub manifest_path : Repo → Text → Text
unfolding join_path
manifest_path r service = join_path (r.cfg.manifest_dir ∷ (service ++ lit ".yaml") ∷ [])

-- Sync, behind what its fetch answered.
unfoldable pub sync : Result Text → Repo → Repo × Result Text
unfolding classify_sync_failure
sync (err e) r = (record r { failure = some (classify_sync_failure e) }, err e)
sync (ok head) r = (record r { synced = true; failure = none }, ok head)

abbrev synced_or_reason : Bool → Option Error → Bool × Option Error
synced_or_reason false none = (false, some never_synced)
synced_or_reason synced failure = (synced, failure)

unfoldable pub sync_state : Repo → Bool × Option Error
sync_state r = synced_or_reason r.synced r.failure

abbrev required : Bool → Option Error → Option Error
required true failure = none
required false none = some never_synced
required false (some e) = some e

unfoldable pub require_synced : Repo → Option Error
require_synced r = required r.synced r.failure

module _ (quote : Text → Text) (read_file : Text → Result Text) where
  abbrev file_or_error : Text → Result Text → Result Text
  file_or_error shown (ok raw) = ok raw
  file_or_error shown (err e) = err (wrap (lit "read " ++ shown ++ lit ": " ++ e.text) e)

  abbrev read_checked : Repo → Text → Text → Option Error → Result Text
  read_checked r dir file (some e) = err e
  read_checked r dir file none =
      file_or_error (join_path (dir ∷ file ∷ []))
        (read_file (join_path (r.cfg.cache_dir ∷ dir ∷ file ∷ [])))

  abbrev read_required : Repo → Text → Text → Text → Option Error → Result Text
  read_required r dir file name (some e) = err e
  read_required r dir file name none = read_checked r dir file (check_name quote name)

  unfoldable pub read_relative : Repo → Text → Text → Text → Result Text
  unfolding require_synced
  read_relative r dir file name = read_required r dir file name (require_synced r)

  unfoldable pub template : Repo → Text → Result Text
  unfolding read_relative
  template r name = read_relative r r.cfg.template_dir name name

  module _ (parse : Text → Result Manifest) where
    abbrev parsed : Text → Text → Result Manifest → Result (Manifest × Text)
    parsed service raw (ok m) = ok (m, raw)
    parsed service raw (err e) = err (wrap (lit "manifest " ++ service ++ lit ": " ++ e.text) e)

    abbrev manifest_of : Text → Result Text → Result (Manifest × Text)
    manifest_of service (err e) = err e
    manifest_of service (ok raw) = parsed service raw (parse raw)

    unfoldable pub manifest : Repo → Text → Result (Manifest × Text)
    unfolding read_relative
    manifest r service =
        manifest_of service (read_relative r r.cfg.manifest_dir (service ++ lit ".yaml") service)
