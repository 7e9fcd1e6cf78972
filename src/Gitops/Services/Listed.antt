-- ===== src/Gitops/Services/Listed.antt =====
-- What Services lists (internal/gitops/repo.go).
use snowdeploy.Base.{
  ℕ, Text, lit, ◌≡◌, ◌≢◌, refl, sym, ap, ◌∙◌, ◌⊎◌, inl, inr, ◌==◌, ==→eq, ==_refl, eqb, Bool, true,
  false, not, ◌&&◌, In, length, length-append, append-nil, List, [], ◌∷◌, ◌++◌, Option, none, some,
  Error, Result, ok, err, Bool-cases, arith, if◌then◌else◌, ◌↔◌,
}
use snowdeploy.Revision.{trim_suffix}
use snowdeploy.Gitops.Names.{join_path}
use snowdeploy.Gitops.Mirror.{Repo, require_synced}
use snowdeploy.Gitops.Services.{
  DirEntry, ext_from, ext, is_manifest, names, sorted_or, services_required, services,
}
use snowdeploy.Gitops.Services.Order.{IsSorted, sort-IsSorted, sort-In}

abbrev yaml : Text
yaml = lit ".yaml"

-- What Ext finds is a suffix.
ext_from-suffix :
    (s found : Text) → (ext_from s found ≡ found) ⊎ ((pre : Text) × (s ≡ pre ++ ext_from s found))
ext_from-suffix [] found = inl refl
ext_from-suffix (c ∷ s) found = elim (Bool-cases (eqb c b'.')) [
  | inl dot ↦ rw dot (behind (c ∷ s) [] refl (ext_from-suffix s (c ∷ s)))
  | inr other ↦ elim (Bool-cases (eqb c b'/')) [
    | inl slash ↦
        rw (other, slash) (behind [] (c ∷ s) (sym (append-nil (c ∷ s))) (ext_from-suffix s []))
    | inr plain ↦ rw (other, plain) (kept (ext_from-suffix s found))
  ]
]
  where
    behind :
        (f pre : Text)
        → c ∷ s ≡ pre ++ f
        → (ext_from s f ≡ f) ⊎ ((q : Text) × (s ≡ q ++ ext_from s f))
        → (ext_from s f ≡ found) ⊎ ((q : Text) × (c ∷ s ≡ q ++ ext_from s f))
    behind f pre e (inl k) = inr (pre, e ∙ ap (λ (t : Text). pre ++ t) (sym k))
    behind f pre e (inr (q, k)) = inr (c ∷ q, ap (λ (t : Text). c ∷ t) k)

    kept :
        (ext_from s found ≡ found) ⊎ ((pre : Text) × (s ≡ pre ++ ext_from s found))
        → (ext_from s found ≡ found) ⊎ ((q : Text) × (c ∷ s ≡ q ++ ext_from s found))
    kept (inl e) = inl e
    kept (inr (pre, e)) = inr (c ∷ pre, ap (λ (t : Text). c ∷ t) e)

ext-yaml : (s found : Text) → ext_from (s ++ yaml) found ≡ yaml
unfolding lit
ext-yaml [] found = refl
ext-yaml (c ∷ s) found =
    ext-yaml s (if eqb c b'.' then c ∷ s ++ yaml else if eqb c b'/' then [] else found)

longer : (c : ℕ) (s p : Text) → ((c ∷ s ++ p) == p) ≡ false
longer c s p = elim (Bool-cases ((c ∷ s ++ p) == p)) [
  | inr differ ↦ differ
  | inl same ↦
      let e = ap (λ (t : Text). length t) (==→eq (c ∷ s ++ p) p same) in
      absurd (omega (arith, e, length-append s p))
]

trim_suffix-append : (s p : Text) → p ≢ [] → trim_suffix (s ++ p) p ≡ s
unfolding trim_suffix
trim_suffix-append [] [] h = absurd (h refl)
trim_suffix-append [] (c ∷ p) h = rw (==_refl (c ∷ p)) refl
trim_suffix-append (c ∷ s) p h =
    rw (longer c s p) (ap (λ (t : Text). c ∷ t) (trim_suffix-append s p h))

yaml-full : yaml ≢ []
unfolding lit
yaml-full h = cc

abbrev pub file : Text → DirEntry
file name = record { name = name; is_dir = false }

pub same_entry : (m : Text) (e : DirEntry) → m ≡ e.name → e.is_dir ≡ false → file m ≡ e
same_entry m e h k = rw (h, ← k) refl

-- The entries that are manifests.
abbrev pub IsEntry : Text → List DirEntry → Type 0
IsEntry s es = In (file (s ++ lit ".yaml")) es

and-eq-true : (a b : Bool) → (a && b) ≡ true → (a ≡ true) × (b ≡ true)
and-eq-true a b h = ground arith

not-eq-true : (a : Bool) → not a ≡ true → a ≡ false
not-eq-true a h = ground arith

pub is_manifest-name :
    (e : DirEntry)
    → is_manifest e ≡ true
    → (e.is_dir ≡ false) × (e.name ≡ trim_suffix e.name yaml ++ yaml)
unfolding ext
is_manifest-name e h =
    let both = and-eq-true (not e.is_dir) (ext e.name == yaml) h in
    (
      not-eq-true e.is_dir both.0,
      named (==→eq (ext e.name) yaml both.1) (ext_from-suffix e.name []),
    )
  where
    named :
        ext e.name ≡ yaml
        → (ext_from e.name [] ≡ []) ⊎ ((pre : Text) × (e.name ≡ pre ++ ext_from e.name []))
        → e.name ≡ trim_suffix e.name yaml ++ yaml
    named k (inl nothing) = absurd (yaml-full (sym k ∙ nothing))
    named k (inr (pre, split)) =
        let whole : e.name ≡ pre ++ yaml = split ∙ ap (λ (t : Text). pre ++ t) k in
        whole
        ∙ ap (λ (t : Text). t ++ yaml)
            (sym
              (ap (λ (t : Text). trim_suffix t yaml) whole ∙ trim_suffix-append pre yaml yaml-full))

pub entry-is_manifest : (s : Text) → is_manifest (file (s ++ yaml)) ≡ true
unfolding ext
entry-is_manifest s = ap (λ (t : Text). t == yaml) (ext-yaml s []) ∙ ==_refl yaml

names-In : (s : Text) (es : List DirEntry) → In s (names es) ↔ IsEntry s es
unfolding names
names-In s [] = (λ h. h, λ h. h)
names-In s (e ∷ es) = elim (Bool-cases (is_manifest e)) [
  | inl manifest ↦ rw manifest (listed (is_manifest-name e manifest) (names-In s es))
  | inr other ↦ rw other (skipped other (names-In s es))
]
  where
    listed :
        (e.is_dir ≡ false) × (e.name ≡ trim_suffix e.name yaml ++ yaml)
        → In s (names es) ↔ IsEntry s es
        → ((s ≡ trim_suffix e.name yaml) ⊎ In s (names es)) ↔ IsEntry s (e ∷ es)
    listed (file, split) iff = (there, back)
      where
        there : (s ≡ trim_suffix e.name yaml) ⊎ In s (names es) → IsEntry s (e ∷ es)
        there (inl k) = inl (same_entry _ e (ap (λ (t : Text). t ++ yaml) k ∙ sym split) file)
        there (inr m) = inr (iff.0 m)

        back : IsEntry s (e ∷ es) → (s ≡ trim_suffix e.name yaml) ⊎ In s (names es)
        back (inl k) = inl (
            sym (
              ap (λ (d : DirEntry). trim_suffix d.name yaml) (sym k)
              ∙ trim_suffix-append s yaml yaml-full))
        back (inr m) = inr (iff.1 m)

    skipped :
        is_manifest e ≡ false
        → In s (names es) ↔ IsEntry s es
        → In s (names es) ↔ IsEntry s (e ∷ es)
    skipped other iff = (λ h. inr (iff.0 h), back)
      where
        back : IsEntry s (e ∷ es) → In s (names es)
        back (inl k) = cc (sym (ap (λ (d : DirEntry). is_manifest d) k) ∙ entry-is_manifest s)
        back (inr m) = iff.1 m

-- What Services answers.
abbrev pub IsListing : (Text → Result (List DirEntry)) → Repo → Result (List Text) → Type 0
IsListing read_dir r (err e) =
    (require_synced r ≡ some e)
    ⊎ ((f : Error) × (read_dir (join_path (r.cfg.cache_dir ∷ r.cfg.manifest_dir ∷ [])) ≡ err f))
IsListing read_dir r (ok listed) =
    (require_synced r ≡ none)
    × ((es : List DirEntry) × (read_dir (join_path (r.cfg.cache_dir ∷ r.cfg.manifest_dir ∷ []))
          ≡ ok es)
        × IsSorted listed
        × ((s : Text) → In s listed ↔ IsEntry s es))

-- Services answers the names of exactly those entries of the manifest directory that are files
-- named `<service>.yaml`, in order, of a mirror that reads may be made of; and it answers an error
-- only if the mirror says so or the directory cannot be read.
services-IsListing :
    (read_dir : Text → Result (List DirEntry)) (r : Repo)
    → IsListing read_dir r (services read_dir r)
unfolding services
services-IsListing read_dir r = of_state (require_synced r) refl
  where
    of_entries :
        (q : Result (List DirEntry))
        → require_synced r ≡ none
        → read_dir (join_path (r.cfg.cache_dir ∷ r.cfg.manifest_dir ∷ [])) ≡ q
        → IsListing read_dir r (sorted_or q)
    of_entries (err f) h k = inr (f, k)
    of_entries (ok es) h k = (
      h,
      (
        es,
        k,
        sort-IsSorted (names es),
        λ s.
            let a = sort-In s (names es) in
            let b = names-In s es in (λ m. b.0 (a.0 m), λ m. a.1 (b.1 m)),
      ),
    )

    of_state :
        (o : Option Error)
        → require_synced r ≡ o
        → IsListing read_dir r (services_required read_dir r o)
    of_state (some e) h = inl h
    of_state none h =
        of_entries (read_dir (join_path (r.cfg.cache_dir ∷ r.cfg.manifest_dir ∷ []))) h refl
