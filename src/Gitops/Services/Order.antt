-- ===== src/Gitops/Services/Order.antt =====
-- The order of the services (internal/gitops/repo.go).
use snowdeploy.Base.{
  Text, ◌≡◌, refl, ◌⊎◌, inl, inr, true, false, In, All, List, [], ◌∷◌, Bool-cases, arith, ◌↔◌,
}
use snowdeploy.Gitops.Services.{text_lt, insert_sorted, sort}

-- No text stands behind a smaller one.
abbrev pub IsSorted : List Text → Type 0
IsSorted [] = Unit
IsSorted (s ∷ ss) = All (λ t. text_lt t s ≡ false) ss × IsSorted ss

text_lt_asym : (s t : Text) → text_lt s t ≡ true → text_lt t s ≡ false
unfolding text_lt
text_lt_asym s [] h = cc
text_lt_asym [] (d ∷ t) h = refl
text_lt_asym (c ∷ s) (d ∷ t) h = ground (arith, text_lt_asym s t)

text_lt_trans : (s t u : Text) → text_lt t s ≡ false → text_lt u t ≡ false → text_lt u s ≡ false
unfolding text_lt
text_lt_trans [] [] [] h k = refl
text_lt_trans [] [] (e ∷ u) h k = refl
text_lt_trans [] (d ∷ t) [] h k = cc
text_lt_trans [] (d ∷ t) (e ∷ u) h k = refl
text_lt_trans (c ∷ s) [] [] h k = cc
text_lt_trans (c ∷ s) [] (e ∷ u) h k = cc
text_lt_trans (c ∷ s) (d ∷ t) [] h k = cc
text_lt_trans (c ∷ s) (d ∷ t) (e ∷ u) h k = ground (arith, text_lt_trans s t u)

module _ (P : Text → Type 0) where
  All-insert : (s : Text) (ts : List Text) → P s → All P ts → All P (insert_sorted s ts)
  All-insert s [] p h = (p, h)
  All-insert s (t ∷ ts) p h = elim (Bool-cases (text_lt t s)) [
    | inl below ↦ rw below (h.0, All-insert s ts p h.1)
    | inr above ↦ rw above (p, h)
  ]

All-map : {P Q : Text → Type 0} (ts : List Text) → ((t : Text) → P t → Q t) → All P ts → All Q ts
All-map [] f h = tt
All-map (t ∷ ts) f h = (f t h.0, All-map ts f h.1)

insert_sorted-IsSorted : (s : Text) (ts : List Text) → IsSorted ts → IsSorted (insert_sorted s ts)
insert_sorted-IsSorted s [] h = (tt, tt)
insert_sorted-IsSorted s (t ∷ ts) h = elim (Bool-cases (text_lt t s)) [
  | inl below ↦ rw below (
    All-insert (λ u. text_lt u t ≡ false) s ts (text_lt_asym t s below) h.0,
    insert_sorted-IsSorted s ts h.1,
  )
  | inr above ↦ rw above ((above, All-map ts (λ u. text_lt_trans s t u above) h.0), h)
]

pub sort-IsSorted : (ts : List Text) → IsSorted (sort ts)
unfolding sort
sort-IsSorted [] = tt
sort-IsSorted (t ∷ ts) = insert_sorted-IsSorted t (sort ts) (sort-IsSorted ts)

insert_sorted-In : (x s : Text) (ts : List Text) → In x (insert_sorted s ts) ↔ ((x ≡ s) ⊎ In x ts)
insert_sorted-In x s [] = (λ h. h, λ h. h)
insert_sorted-In x s (t ∷ ts) = elim (Bool-cases (text_lt t s)) [
  | inl below ↦ rw below (let iff = insert_sorted-In x s ts in (λ h. there iff h, λ h. back iff h))
  | inr above ↦ rw above (λ h. h, λ h. h)
]
  where
    there :
        In x (insert_sorted s ts) ↔ ((x ≡ s) ⊎ In x ts)
        → (x ≡ t) ⊎ In x (insert_sorted s ts)
        → (x ≡ s) ⊎ (x ≡ t) ⊎ In x ts
    there iff (inl e) = inr (inl e)
    there iff (inr m) = elim (iff.0 m) [ inl e ↦ inl e | inr n ↦ inr (inr n) ]

    back :
        In x (insert_sorted s ts) ↔ ((x ≡ s) ⊎ In x ts)
        → (x ≡ s) ⊎ (x ≡ t) ⊎ In x ts
        → (x ≡ t) ⊎ In x (insert_sorted s ts)
    back iff (inl e) = inr (iff.1 (inl e))
    back iff (inr (inl e)) = inl e
    back iff (inr (inr m)) = inr (iff.1 (inr m))

pub sort-In : (x : Text) (ts : List Text) → In x (sort ts) ↔ In x ts
unfolding sort
sort-In x [] = (λ h. h, λ h. h)
sort-In x (t ∷ ts) =
    let ins = insert_sorted-In x t (sort ts) in
    let rest = sort-In x ts in (λ h. there rest (ins.0 h), λ h. ins.1 (back rest h))
  where
    there : In x (sort ts) ↔ In x ts → (x ≡ t) ⊎ In x (sort ts) → (x ≡ t) ⊎ In x ts
    there rest (inl e) = inl e
    there rest (inr m) = inr (rest.0 m)

    back : In x (sort ts) ↔ In x ts → (x ≡ t) ⊎ In x ts → (x ≡ t) ⊎ In x (sort ts)
    back rest (inl e) = inl e
    back rest (inr m) = inr (rest.1 m)
