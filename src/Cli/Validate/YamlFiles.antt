-- ===== src/Cli/Validate/YamlFiles.antt =====
-- Which files of a directory the check of cmd/snowdeploy/validate.go looks at.
use mathlib.Core.Path.{subst}
use snowdeploy.Base.{
  Text, lit, ◌≡◌, ◌≢◌, refl, sym, ◌∙◌, ◌↔◌, inl, inr, true, false, List, [], ◌∷◌, ◌++◌, In, All,
  Bool-cases,
}
use snowdeploy.Revision.{trim_suffix}
use snowdeploy.Gitops.Names.{join_path}
use snowdeploy.Gitops.Services.{DirEntry, is_manifest}
use snowdeploy.Gitops.Services.Listed.{is_manifest-name, entry-is_manifest, same_entry}
use snowdeploy.Cli.Validate.{files_of}

-- A file, no directory, whose name ends in ".yaml".
abbrev pub IsYamlFile : DirEntry → Type 0
IsYamlFile e = (e.is_dir ≡ false) × (stem : Text) × (e.name ≡ stem ++ lit ".yaml")

IsYamlFile-is_manifest : (e : DirEntry) → IsYamlFile e → is_manifest e ≡ true
IsYamlFile-is_manifest e (plain, stem, named) =
    subst (λ (d : DirEntry). is_manifest d ≡ true) (same_entry _ e (sym named) plain)
      (entry-is_manifest stem)

is_manifest-IsYamlFile : (e : DirEntry) → is_manifest e ≡ true → IsYamlFile e
is_manifest-IsYamlFile e h =
    let (plain, named) = is_manifest-name e h in (plain, trim_suffix e.name (lit ".yaml"), named)

module _ (dir : Text) (Fits : Text → Type 0) where
  -- All of the files that the loop finds fit if and only if each file with that ending does.
  pub files_of-All :
      (es : List DirEntry)
      → All Fits (files_of dir es)
        ↔ ((e : DirEntry) → In e es → IsYamlFile e → Fits (join_path (dir ∷ e.name ∷ [])))
  unfolding files_of
  files_of-All [] = (λ h e m. absurd m, λ h. tt)
  files_of-All (d ∷ es) =
      let rest = files_of-All es in
      elim (Bool-cases (is_manifest d)) [
        | inl yaml ↦ rw yaml (
          λ h e m y. elim m [
            | inl same ↦
                subst (λ (x : DirEntry). Fits (join_path (dir ∷ x.name ∷ []))) (sym same) h.0
            | inr n ↦ rest.0 h.1 e n y
          ],
          λ h. (h d (inl refl) (is_manifest-IsYamlFile d yaml), rest.1 (λ e m y. h e (inr m) y)),
        )
        | inr other ↦ rw other (
          λ h e m y. elim m [
            | inl same ↦ absurd (differ d other (subst (λ (x : DirEntry). IsYamlFile x) same y))
            | inr n ↦ rest.0 h e n y
          ],
          λ h. rest.1 (λ e m y. h e (inr m) y),
        )
      ]
    where
      differ : (d : DirEntry) → is_manifest d ≡ false → IsYamlFile d → ⊥
      differ d other y = true-false (sym (IsYamlFile-is_manifest d y) ∙ other)
        where
          true-false : true ≡ false → ⊥
          true-false h = cc

  pub files_of-full :
      (es : List DirEntry) → (files_of dir es ≢ []) ↔ ((e : DirEntry) × In e es × IsYamlFile e)
  unfolding files_of
  files_of-full [] = (λ h. absurd (h refl), λ (e, m, y). absurd m)
  files_of-full (d ∷ es) =
      let rest = files_of-full es in
      elim (Bool-cases (is_manifest d)) [
        | inl yaml ↦ rw yaml (λ h. (d, inl refl, is_manifest-IsYamlFile d yaml), λ h. full_cons _ _)
        | inr other ↦ rw other (
          λ h. let (e, m, y) = rest.0 h in (e, inr m, y),
          λ (e, m, y). elim m [
            | inl same ↦ absurd (differ d other (subst (λ (x : DirEntry). IsYamlFile x) same y))
            | inr n ↦ rest.1 (e, n, y)
          ],
        )
      ]
    where
      full_cons : (x : Text) (xs : List Text) → x ∷ xs ≢ []
      full_cons x xs h = cc

      differ : (d : DirEntry) → is_manifest d ≡ false → IsYamlFile d → ⊥
      differ d other y = true-false (sym (IsYamlFile-is_manifest d y) ∙ other)
        where
          true-false : true ≡ false → ⊥
          true-false h = cc
