-- ===== src/Manifest/Confinement.antt =====
-- Host paths that validateHostPath lets through (internal/manifest/validate.go) lie under an allowed
-- prefix, and nothing in them leads out again.
use mathlib.Core.List.{reverse_aux, append_assoc}
use snowdeploy.Base.{
  ℕ, Text, lit, ◌≡◌, refl, ◌∙◌, ◌⊎◌, inl, inr, eqb, ◌==◌, onto_head, is_empty, has_prefix,
  drop_prefix, split, join, Bool, true, false, ◌||◌, List, [], ◌∷◌, ◌++◌, none, All, In, Bool-cases,
}
use snowdeploy.Occurs.{has_prefix-split}
use snowdeploy.Manifest.Paths.{
  back_up, clean_step, clean_elements, clean_text, clean, under_some, validate_host_path,
}

-- A path element that names a file: not empty, neither `.` nor `..`, and without a slash.
pub record IsPlain (e : Text) : Type 0 where
  pub not_empty : is_empty e ≡ false
  pub not_dot : (e == lit ".") ≡ false
  pub not_dot_dot : (e == lit "..") ≡ false
  pub no_slash : All (λ c. eqb c b'/' ≡ false) e

abbrev NoSlash : Text → Type 0
NoSlash = All (λ c. eqb c b'/' ≡ false)

onto_head-NoSlash :
    (c : ℕ) (s : Text)
    → eqb c b'/' ≡ false
    → All NoSlash (split b'/' s)
    → All NoSlash (split b'/' (c ∷ s))
unfolding split
onto_head-NoSlash c s h a = rw h (grown (split b'/' s) a)
  where
    grown : (ts : List Text) → All NoSlash ts → All NoSlash (onto_head c ts)
    grown [] b = ((h, tt), tt)
    grown (t ∷ ts) b = ((h, b.0), b.1)

split-NoSlash : (s : Text) → All NoSlash (split b'/' s)
unfolding split
split-NoSlash [] = (tt, tt)
split-NoSlash (c ∷ s) = elim (Bool-cases (eqb c b'/')) [
  | inl slash ↦ rw slash (tt, split-NoSlash s)
  | inr other ↦ onto_head-NoSlash c s other (split-NoSlash s)
]

clean_step-IsPlain :
    (e : Text) (kept : List Text)
    → NoSlash e
    → All IsPlain kept
    → All IsPlain (clean_step true e kept)
unfolding clean_step
clean_step-IsPlain e kept n a = elim (Bool-cases (is_empty e || e == lit ".")) [
  | inl skipped ↦ rw skipped a
  | inr real ↦ rw real (elim (Bool-cases (e == lit "..")) [
    | inl up ↦ rw up (popped kept a)
    | inr name ↦ rw name (
      record {
        not_empty = (neither _ _ real).0;
        not_dot = (neither _ _ real).1;
        not_dot_dot = name;
        no_slash = n;
      },
      a,
    )
  ])
]
  where
    neither : (a b : Bool) → (a || b) ≡ false → (a ≡ false) × (b ≡ false)
    neither true b h = cc
    neither false b h = (refl, h)

    popped : (ks : List Text) → All IsPlain ks → All IsPlain (back_up true ks)
    popped [] h = tt
    popped (k ∷ ks) h = rw h.0.not_dot_dot h.1

reverse_aux-All :
    (P : Text → Type 0) (xs acc : List Text) → All P xs → All P acc → All P (reverse_aux xs acc)
reverse_aux-All P [] acc h k = k
reverse_aux-All P (x ∷ xs) acc h k = reverse_aux-All P xs (x ∷ acc) h.1 (h.0, k)

clean_elements-IsPlain :
    (es kept : List Text)
    → All NoSlash es
    → All IsPlain kept
    → All IsPlain (clean_elements true es kept)
unfolding clean_elements
clean_elements-IsPlain [] kept n a = reverse_aux-All IsPlain kept [] a tt
clean_elements-IsPlain (e ∷ es) kept n a =
    clean_elements-IsPlain es (clean_step true e kept) n.1 (clean_step-IsPlain e kept n.0 a)

-- A cleaned absolute path: a slash, and plain elements with a slash between them.
abbrev pub IsCleanPath : Text → Type 0
IsCleanPath p = (es : List Text) × (p ≡ lit "/" ++ join (lit "/") es) × All IsPlain es

-- path.Clean leaves nothing in an absolute path that leads up or stays.
pub clean_rooted : (p : Text) → has_prefix p (lit "/") ≡ true → IsCleanPath (clean p)
unfolding clean clean_text
clean_rooted p rooted = (
  clean_elements true (split b'/' p) [],
  rw rooted refl,
  clean_elements-IsPlain (split b'/' p) [] (split-NoSlash p) tt,
)

-- The path is confined to one of the prefixes: as cleaned it has no way up, and it continues a
-- cleaned prefix behind a slash.
abbrev pub IsConfined : Text → List Text → Type 0
IsConfined p prefixes =
    IsCleanPath (clean p)
    × ((prefix : Text) × (rest : Text) × In prefix prefixes
        × (clean p ≡ clean prefix ++ (lit "/" ++ rest)))

under_some-In :
    (c : Text) (prefixes : List Text)
    → under_some c prefixes ≡ true
    → (prefix : Text) × (rest : Text) × In prefix prefixes × (c ≡ clean prefix ++ (lit "/" ++ rest))
unfolding under_some
under_some-In c [] h = cc
under_some-In c (prefix ∷ prefixes) h = elim (Bool-cases (has_prefix c (clean prefix ++ lit "/"))) [
  | inl here ↦ (
    prefix,
    drop_prefix c (clean prefix ++ lit "/"),
    inl refl,
    has_prefix-split c (clean prefix ++ lit "/") here ∙ append_assoc (clean prefix) (lit "/") _,
  )
  | inr later ↦
      let (found, rest, among, e) = under_some-In c prefixes (rw later at h) in
      (found, rest, inr among, e)
]

-- A host path that is let through is confined, unless no prefix is configured.
pub validate_host_path-IsConfined :
    (p : Text) (prefixes : List Text)
    → validate_host_path p prefixes ≡ none
    → (prefixes ≡ []) ⊎ IsConfined p prefixes
unfolding validate_host_path
validate_host_path-IsConfined p [] h = inl refl
validate_host_path-IsConfined p (prefix ∷ prefixes) h = elim (Bool-cases (has_prefix p (lit "/"))) [
  | inr relative ↦ cc (rw relative at h)
  | inl rooted ↦ elim (Bool-cases (under_some (clean p) (prefix ∷ prefixes))) [
    | inl under ↦ inr (clean_rooted p rooted, under_some-In (clean p) (prefix ∷ prefixes) under)
    | inr outside ↦ cc (rw (rooted, outside) at h)
  ]
]
