-- ===== src/Gitops/Services.antt =====
-- Services of internal/gitops/repo.go: the manifests of the mirror, sorted.
pub mod Order
pub mod Listed
use snowdeploy.Base.{
  ℕ, Text, lit, ◌==◌, eqb, ltb, Bool, true, false, not, ◌||◌, ◌&&◌, List, [], ◌∷◌, ◌++◌, Option,
  none, some, Error, wrap, Result, ok, err, if◌then◌else◌,
}
use snowdeploy.Revision.{trim_suffix}
use snowdeploy.Gitops.Names.{join_path}
use snowdeploy.Gitops.Mirror.{Repo, require_synced}

-- os.DirEntry
pub record DirEntry : Type 0 where
  pub name : Text
  pub is_dir : Bool

-- filepath.Ext: from the last dot of the last element, if it has one.
abbrev pub ext_from : Text → Text → Text
ext_from [] found = found
ext_from (c ∷ s) found = ext_from s (if eqb c b'.' then c ∷ s else if eqb c b'/' then [] else found)

unfoldable pub ext : Text → Text
ext s = ext_from s []

-- `<` on strings
unfoldable pub text_lt : Text → Text → Bool
text_lt s [] = false
text_lt [] (d ∷ t) = true
text_lt (c ∷ s) (d ∷ t) = ltb c d || (eqb c d && text_lt s t)

-- slices.Sort
abbrev pub insert_sorted : Text → List Text → List Text
insert_sorted s [] = s ∷ []
insert_sorted s (t ∷ ts) =
    let rest = insert_sorted s ts in if text_lt t s then t ∷ rest else s ∷ t ∷ ts

unfoldable pub sort : List Text → List Text
unfolding text_lt
sort [] = []
sort (s ∷ ss) = insert_sorted s (sort ss)

abbrev pub is_manifest : DirEntry → Bool
is_manifest e = not e.is_dir && ext e.name == lit ".yaml"

-- The loop over the entries.
unfoldable pub names : List DirEntry → List Text
unfolding ext trim_suffix
names [] = []
names (e ∷ es) =
    let rest = names es in if is_manifest e then trim_suffix e.name (lit ".yaml") ∷ rest else rest

abbrev pub sorted_or : Result (List DirEntry) → Result (List Text)
sorted_or (err e) = err (wrap (lit "list manifests: " ++ e.text) e)
sorted_or (ok entries) = ok (sort (names entries))

module _ (read_dir : Text → Result (List DirEntry)) where
  abbrev pub services_required : Repo → Option Error → Result (List Text)
  services_required r (some e) = err e
  services_required r none =
      sorted_or (read_dir (join_path (r.cfg.cache_dir ∷ r.cfg.manifest_dir ∷ [])))

  unfoldable pub services : Repo → Result (List Text)
  unfolding sort names require_synced join_path
  services r = services_required r (require_synced r)
