-- ===== src/Occurs.antt =====
-- What the searches of package strings find, as equations on texts.
use snowdeploy.Base.{
  Text, ◌≡◌, refl, ap, ◌∙◌, Bool, true, false, ◌||◌, has_prefix, drop_prefix, contains, List, [],
  ◌∷◌, ◌++◌, arith, Bool-cases, inl, inr, none, Error, errors_join,
}

-- `p` occurs in `v`.
abbrev pub Occurs : Text → Text → Type 0
Occurs p v = (before : Text) × (behind : Text) × (v ≡ before ++ p ++ behind)

pub has_prefix-split : (s p : Text) → has_prefix s p ≡ true → s ≡ p ++ drop_prefix s p
unfolding has_prefix drop_prefix
has_prefix-split s [] h = refl
has_prefix-split [] (d ∷ p) h = cc
has_prefix-split (c ∷ s) (d ∷ p) h = ground (arith, has_prefix-split s p)

pub has_prefix-append : (p s : Text) → has_prefix (p ++ s) p ≡ true
unfolding has_prefix
has_prefix-append [] s = refl
has_prefix-append (c ∷ p) s = ground (arith, has_prefix-append p s)

or_right : (a b : Bool) → b ≡ true → (a || b) ≡ true
or_right true b h = refl
or_right false b h = h

pub contains-append : (before p behind : Text) → contains (before ++ p ++ behind) p ≡ true
unfolding contains
contains-append [] [] [] = unfold has_prefix in refl
contains-append [] [] (d ∷ behind) = unfold has_prefix in refl
contains-append [] (c ∷ p) behind =
    ap (λ (b : Bool). b || contains (p ++ behind) (c ∷ p)) (has_prefix-append (c ∷ p) behind)
contains-append (c ∷ before) p behind =
    or_right (has_prefix (c ∷ before ++ p ++ behind) p) _ (contains-append before p behind)

pub Occurs-contains : (p v : Text) → Occurs p v → contains v p ≡ true
Occurs-contains p v (before, behind, e) =
    ap (λ (t : Text). contains t p) e ∙ contains-append before p behind

pub contains-Occurs : (v p : Text) → contains v p ≡ true → Occurs p v
unfolding contains
contains-Occurs [] p h = ([], drop_prefix [] p, has_prefix-split [] p h)
contains-Occurs (c ∷ v) p h = elim (Bool-cases (has_prefix (c ∷ v) p)) [
  | inl here ↦ ([], drop_prefix (c ∷ v) p, has_prefix-split (c ∷ v) p here)
  | inr later ↦
      let (before, behind, e) = contains-Occurs v p (rw later at h) in
      (c ∷ before, behind, ap (λ (t : Text). c ∷ t) e)
]

pub errors_join-none : (es : List Error) → errors_join es ≡ none → es ≡ []
errors_join-none [] h = refl
errors_join-none (e ∷ es) h = cc

pub append-eq-nil {ℓ} : {A : Type ℓ} (xs ys : List A) → xs ++ ys ≡ [] → (xs ≡ []) × (ys ≡ [])
append-eq-nil [] ys h = (refl, h)
append-eq-nil (x ∷ xs) ys h = cc
