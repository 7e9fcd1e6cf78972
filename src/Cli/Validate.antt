-- ===== src/Cli/Validate.antt =====
-- cmd/snowdeploy/validate.go: the check of a directory of manifests. The flag package and package os
-- are parameters.
pub mod YamlFiles
pub mod Accepted
use snowdeploy.Base.{
  ℕ, suc, Text, lit, ◌==◌, is_empty, trim_space, split, eqb, ltb, itoa, length, map, filter, Bool,
  true, false, not, ◌||◌, List, [], ◌∷◌, ◌++◌, Option, none, some, Error, errors_new, wrap, Result,
  ok, err, if◌then◌else◌,
}
use snowdeploy.Platform.{Platform}
use snowdeploy.Revision.{trim_suffix}
use snowdeploy.Manifest.Defs.{Manifest, Limits}
use snowdeploy.Manifest.Validate.{validate}
use snowdeploy.Deploy.Rollback.{parse}
use snowdeploy.Gitops.Names.{join_path}
use snowdeploy.Gitops.Services.{DirEntry, is_manifest}

unfoldable pub split_list : Text → List Text
unfolding trim_space split
split_list raw =
    if is_empty (trim_space raw)
    then []
    else filter (λ p. not (is_empty p)) (map trim_space (split b',' raw))

-- The loop over the entries of the directory.
unfoldable pub files_of : Text → List DirEntry → List Text
unfolding join_path
files_of dir [] = []
files_of dir (e ∷ es) =
    let rest = files_of dir es in
    if is_manifest e then join_path (dir ∷ e.name ∷ []) ∷ rest else rest

abbrev pub manifest_files : Text → Result (List DirEntry) → Result (List Text)
manifest_files dir (err e) = err (wrap (lit "read manifest directory: " ++ e.text) e)
manifest_files dir (ok entries) = ok (files_of dir entries)

-- filepath.Base of a path that does not end in a slash: what stands behind the last one.
abbrev pub base_from : Text → Text → Text
base_from [] found = found
base_from (c ∷ s) found = base_from s (if eqb c b'/' then s else found)

unfoldable pub base : Text → Text
base path = base_from path path

-- The two lists of prefixes, as they are written.
pub record ValidateFlags : Type 0 where
  pub volume_prefixes : Text
  pub env_file_prefixes : Text

abbrev pub limits_of : ValidateFlags → Limits
limits_of flags = record {
  volume_prefixes = split_list flags.volume_prefixes;
  env_file_prefixes = split_list flags.env_file_prefixes;
}

module _ (F : Platform) (read_file : Text → Result Text) where
  abbrev pub check_name : Text → Manifest → Option Error
  check_name path m =
      let name = trim_suffix (base path) (lit ".yaml") in
      if m.name == name
      then none
      else some (
          errors_new (
            lit "name "
            ++ F.quote m.name
            ++ lit " does not match the file name "
            ++ F.quote name
            ++ lit "; the daemon addresses services by file name"))

  abbrev pub check_valid : Text → Manifest → Option Error → Option Error
  check_valid path m (some e) = some e
  check_valid path m none = check_name path m

  abbrev pub check_parsed : Text → Limits → Result Manifest → Option Error
  check_parsed path lim (err e) = some e
  check_parsed path lim (ok m) = check_valid path m (validate F m lim)

  abbrev pub check_read : Text → Limits → Result Text → Option Error
  check_read path lim (err e) = some e
  check_read path lim (ok raw) = check_parsed path lim (parse F raw)

  unfoldable pub check_one : Text → Limits → Option Error
  unfolding validate base trim_suffix parse
  check_one path lim = check_read path lim (read_file path)

  abbrev pub counted : Option Error → ℕ → ℕ
  counted none failures = failures
  counted (some e) failures = suc failures

  -- The loop over the files.
  unfoldable pub failures : Limits → List Text → ℕ
  unfolding check_one
  failures lim [] = 0
  failures lim (path ∷ paths) = counted (check_one path lim) (failures lim paths)

  abbrev pub verdict : Limits → Text → List Text → Option Error
  verdict lim dir [] = some (errors_new (lit "no *.yaml manifests found in " ++ dir))
  verdict lim dir (path ∷ paths) =
      let files = path ∷ paths in
      let failed = failures lim files in
      if ltb 0 failed
      then some (
          errors_new (
            itoa failed ++ lit " of " ++ itoa (length files) ++ lit " manifests failed validation"))
      else none

  abbrev pub of_files : Limits → Text → Result (List Text) → Option Error
  of_files lim dir (err e) = some e
  of_files lim dir (ok files) = verdict lim dir files

  module _ (read_dir : Text → Result (List DirEntry)) where
    -- What parseWithOperand found: the flags and the directory.
    unfoldable pub cmd_validate : Result (ValidateFlags × Text) → Option Error
    unfolding files_of failures split_list
    cmd_validate (err e) = some e
    cmd_validate (ok (flags, dir)) =
        of_files (limits_of flags) dir (manifest_files dir (read_dir dir))
