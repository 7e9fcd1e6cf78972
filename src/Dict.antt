-- ===== src/Dict.antt =====
-- Go's maps keyed by strings: association lists in which `put` keeps one pair for each key.
use snowdeploy.Base.{
  suc, ◌≤◌, Text, ◌≡◌, refl, ap, ◌==◌, ==→eq, ==_refl, length, false, List, [], ◌∷◌, Option, none,
  some, if◌then◌else◌, arith, Bool-cases, inl, inr,
}

abbrev pub Dict : Type 0 → Type 0
Dict A = List (Text × A)

module _ {A : Type 0} where
  unfoldable pub lookup : Text → Dict A → Option A
  lookup k [] = none
  lookup k ((l, v) ∷ m) = if l == k then some v else lookup k m

  unfoldable pub put : Text → A → Dict A → Dict A
  put k v [] = (k, v) ∷ []
  put k v ((l, w) ∷ m) = if l == k then (l, v) ∷ m else (l, w) ∷ put k v m

  unfoldable pub delete : Text → Dict A → Dict A
  delete k [] = []
  delete k ((l, w) ∷ m) = let rest = delete k m in if l == k then rest else (l, w) ∷ rest

  pub lookup-put : (k : Text) (v : A) (m : Dict A) → lookup k (put k v m) ≡ some v
  unfolding lookup put
  lookup-put k v [] = rw (==_refl k) refl
  lookup-put k v ((l, w) ∷ m) = elim (Bool-cases (l == k)) [
    | inl hit ↦ rw hit (rw hit refl)
    | inr miss ↦ rw miss (rw miss (lookup-put k v m))
  ]

  pub lookup-put_other :
      (j k : Text) (v : A) (m : Dict A) → (k == j) ≡ false → lookup j (put k v m) ≡ lookup j m
  unfolding lookup put
  lookup-put_other j k v [] differ = rw differ refl
  lookup-put_other j k v ((l, w) ∷ m) differ = elim (Bool-cases (l == k)) [
    | inl hit ↦ rw hit (rw (==→eq l k hit, differ) refl)
    | inr miss ↦
        rw miss
          (ap (λ (o : Option A). if l == j then some w else o) (lookup-put_other j k v m differ))
  ]

  pub lookup-delete : (k : Text) (m : Dict A) → lookup k (delete k m) ≡ none
  unfolding lookup delete
  lookup-delete k [] = refl
  lookup-delete k ((l, w) ∷ m) = elim (Bool-cases (l == k)) [
    | inl hit ↦ rw hit (lookup-delete k m)
    | inr miss ↦ rw miss (rw miss (lookup-delete k m))
  ]

  pub length-put : (k : Text) (v : A) (m : Dict A) → length (put k v m) ≤ suc (length m)
  unfolding put
  length-put k v [] = omega arith
  length-put k v ((l, w) ∷ m) = elim (Bool-cases (l == k)) [
    | inl hit ↦ rw hit (omega arith)
    | inr miss ↦ rw miss (omega (arith, length-put k v m))
  ]
