-- ===== src/Cli/Validate/Accepted.antt =====
-- Which directories the check of cmd/snowdeploy/validate.go accepts.
use mathlib.Core.Path.{subst}
use snowdeploy.Base.{
  ℕ, Text, lit, ◌≡◌, ◌≢◌, refl, ◌↔◌, inl, inr, ◌==◌, ==→eq, ==→ne, ltb, true, false, List, [], ◌∷◌,
  In, All, Option, none, some, Error, Result, ok, err, Bool-cases, arith,
}
use snowdeploy.Platform.{Platform}
use snowdeploy.Revision.{trim_suffix}
use snowdeploy.Manifest.Defs.{Manifest, Limits}
use snowdeploy.Manifest.Validate.{validate}
use snowdeploy.Deploy.Rollback.{parse}
use snowdeploy.Gitops.Names.{join_path}
use snowdeploy.Gitops.Services.{DirEntry}
use snowdeploy.Cli.Validate.YamlFiles.{IsYamlFile, files_of-All, files_of-full}
use snowdeploy.Cli.Validate.{
  ValidateFlags, limits_of, files_of, manifest_files, base, check_name, check_valid, check_parsed,
  check_read, check_one, counted, failures, verdict, of_files, cmd_validate,
}

some-none : {A : Type 0} (a : A) → some a ≡ none → ⊥
some-none a h = cc

module _ (F : Platform) (read_file : Text → Result Text) where
  -- The file can be read and parsed, the manifest is valid, and it is named as the file is.
  pub record Passes (lim : Limits) (path : Text) : Type 0 where
    pub raw : Text
    pub manifest : Manifest
    pub was_read : read_file path ≡ ok raw
    pub was_parsed : parse F raw ≡ ok manifest
    pub is_valid : validate F manifest lim ≡ none
    pub is_named : manifest.name ≡ trim_suffix (base path) (lit ".yaml")

  module _ (lim : Limits) where
    check_name-none :
        (path : Text) (m : Manifest)
        → (check_name F read_file path m ≡ none) ↔ (m.name ≡ trim_suffix (base path) (lit ".yaml"))
    check_name-none path m = elim (Bool-cases (m.name == trim_suffix (base path) (lit ".yaml"))) [
      | inl e ↦ (λ h. ==→eq _ _ e, λ h. rw e refl)
      | inr e ↦ (λ h. absurd (some-none _ (rw e at h)), λ h. absurd (==→ne _ _ e h))
    ]

    Passes-of :
        (path raw : Text) (m : Manifest) (v : Option Error)
        → read_file path ≡ ok raw
        → parse F raw ≡ ok m
        → validate F m lim ≡ v
        → check_valid F read_file path m v ≡ none
        → Passes lim path
    Passes-of path raw m (some e) read parsed valid h = absurd (some-none e h)
    Passes-of path raw m none read parsed valid h = record {
      raw = raw;
      manifest = m;
      was_read = read;
      was_parsed = parsed;
      is_valid = valid;
      is_named = (check_name-none path m).0 h;
    }

    Passes-of_parsed :
        (path raw : Text) (p : Result Manifest)
        → read_file path ≡ ok raw
        → parse F raw ≡ p
        → check_parsed F read_file path lim p ≡ none
        → Passes lim path
    Passes-of_parsed path raw (err e) read parsed h = absurd (some-none e h)
    Passes-of_parsed path raw (ok m) read parsed h =
        Passes-of path raw m (validate F m lim) read parsed refl h

    Passes-of_read :
        (path : Text) (r : Result Text)
        → read_file path ≡ r
        → check_read F read_file path lim r ≡ none
        → Passes lim path
    Passes-of_read path (err e) read h = absurd (some-none e h)
    Passes-of_read path (ok raw) read h = Passes-of_parsed path raw (parse F raw) read refl h

    check_one-Passes : (path : Text) → (check_one F read_file path lim ≡ none) ↔ Passes lim path
    unfolding check_one
    check_one-Passes path = (
      λ h. Passes-of_read path (read_file path) refl h,
      λ p.
          rw p.was_read
            (rw p.was_parsed (rw p.is_valid ((check_name-none path p.manifest).1 p.is_named))),
    )

    failures-Passes :
        (paths : List Text) → (failures F read_file lim paths ≡ 0) ↔ All (Passes lim) paths
    unfolding failures
    failures-Passes [] = (λ h. tt, λ h. refl)
    failures-Passes (path ∷ paths) =
        of_check (check_one F read_file path lim) (check_one-Passes path) (failures-Passes paths)
      where
        of_check :
            (o : Option Error)
            → (o ≡ none) ↔ Passes lim path
            → (failures F read_file lim paths ≡ 0) ↔ All (Passes lim) paths
            → (counted F read_file o (failures F read_file lim paths) ≡ 0)
              ↔ (Passes lim path × All (Passes lim) paths)
        of_check none one rest = (λ h. (one.0 refl, rest.0 h), λ h. rest.1 h.1)
        of_check (some e) one rest =
            (λ h. absurd (omega (arith, h)), λ h. absurd (some-none e (one.1 h.0)))

  -- The directory can be read, it holds at least one manifest, and each manifest in it passes.
  pub record Accepts (lim : Limits) (dir : Text) (listing : Result (List DirEntry)) : Type 0 where
    pub entries : List DirEntry
    pub listed : listing ≡ ok entries
    pub holds_manifests : (e : DirEntry) × In e entries × IsYamlFile e
    pub each_passes :
        (e : DirEntry) → In e entries → IsYamlFile e → Passes lim (join_path (dir ∷ e.name ∷ []))

  abbrev pub IsAccepted : (Text → Result (List DirEntry)) → Result (ValidateFlags × Text) → Type 0
  IsAccepted read_dir (err e) = ⊥
  IsAccepted read_dir (ok (flags, dir)) = Accepts (limits_of flags) dir (read_dir dir)

  module _ (lim : Limits) (dir : Text) where
    verdict-none :
        (files : List Text)
        → (verdict F read_file lim dir files ≡ none) ↔ ((files ≢ []) × All (Passes lim) files)
    verdict-none [] = (λ h. absurd (some-none _ h), λ h. absurd (h.0 refl))
    verdict-none (path ∷ paths) =
        let iff = failures-Passes lim (path ∷ paths) in
        elim (Bool-cases (ltb 0 (failures F read_file lim (path ∷ paths)))) [
          | inl some_failed ↦
              rw some_failed
                (λ h. absurd (some-none _ h), λ h. absurd (positive _ some_failed (iff.1 h.1)))
          | inr none_failed ↦
              rw none_failed (λ h. (not_empty, iff.0 (zero_of _ none_failed)), λ h. refl)
        ]
      where
        not_empty : path ∷ paths ≢ []
        not_empty h = cc

        positive : (n : ℕ) → ltb 0 n ≡ true → n ≡ 0 → ⊥
        positive n h z = ground (arith, h, z)

        zero_of : (n : ℕ) → ltb 0 n ≡ false → n ≡ 0
        zero_of n h = ground (arith, h)

    of_listing :
        (listing : Result (List DirEntry))
        → (of_files F read_file lim dir (manifest_files dir listing) ≡ none)
          ↔ Accepts lim dir listing
    of_listing (err e) = (λ h. absurd (some-none _ h), λ a. absurd (unreadable a.entries a.listed))
      where
        unreadable : (entries : List DirEntry) → err e ≡ ok entries → ⊥
        unreadable entries h = cc
    of_listing (ok entries) =
        let iff = verdict-none (files_of dir entries) in
        (
          λ h. record {
            entries = entries;
            listed = refl;
            holds_manifests = (files_of-full dir (Passes lim) entries).0 (iff.0 h).0;
            each_passes = (files_of-All dir (Passes lim) entries).0 (iff.0 h).1;
          },
          λ a. iff.1 (
              back a.entries a.listed
                ((files_of-full dir (Passes lim) a.entries).1 a.holds_manifests)
                ((files_of-All dir (Passes lim) a.entries).1 a.each_passes)),
        )
      where
        back :
            (es : List DirEntry)
            → ◌≡◌ {A = Result (List DirEntry)} (ok entries) (ok es)
            → files_of dir es ≢ []
            → All (Passes lim) (files_of dir es)
            → (files_of dir entries ≢ []) × All (Passes lim) (files_of dir entries)
        back es h some_files pass =
            let same : es ≡ entries = cc in
            subst (λ (l : List DirEntry). (files_of dir l ≢ []) × All (Passes lim) (files_of dir l))
              same (some_files, pass)

-- The check succeeds if and only if its arguments parse, the directory can be read, it holds at least
-- one file whose name ends in ".yaml", and every such file in it can be read, parses as a manifest that is valid under the given prefixes and
-- has the name of its file.
pub cmd_validate-IsAccepted :
    (F : Platform) (read_file : Text → Result Text) (read_dir : Text → Result (List DirEntry))
    (args : Result (ValidateFlags × Text))
    → (cmd_validate F read_file read_dir args ≡ none) ↔ IsAccepted F read_file read_dir args
unfolding cmd_validate
cmd_validate-IsAccepted F read_file read_dir (err e) = (λ h. absurd (some-none _ h), λ a. absurd a)
cmd_validate-IsAccepted F read_file read_dir (ok (flags, dir)) =
    of_listing F read_file (limits_of flags) dir (read_dir dir)
