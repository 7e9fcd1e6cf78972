-- ===== src/Config/Checks.antt =====
-- When a list of checks reports nothing (internal/config/config.go).
use snowdeploy.Base.{
  Text, lit, ◌≡◌, ◌≢◌, refl, ap, ◌∙◌, ◌⊎◌, inl, inr, ◌↔◌, is_empty, has_prefix, drop_prefix, Bool,
  true, false, not, ◌||◌, All, List, [], ◌∷◌, ◌++◌, map, Option, none, some, Error, errors_join,
  Bool-cases, eqb, eqb_iff,
}
use snowdeploy.Base.Int.{ℤ, pos, negsuc, eqb_ℤ}
use snowdeploy.Occurs.{has_prefix-split, has_prefix-append, errors_join-none}
use snowdeploy.Config.{
  fail_when, collect, is_loopback, is_absolute, no_users, check_loopback, check_absolute,
}

pub iff_trans : {P Q R : Type 0} → P ↔ Q → Q ↔ R → P ↔ R
iff_trans p q = (λ h. q.0 (p.0 h), λ h. p.1 (q.1 h))

abbrev pub IsSilent : List (Option Error) → Type 0
IsSilent os = All (λ o. o ≡ none) os

collect-nil : (os : List (Option Error)) → (collect os ≡ []) ↔ IsSilent os
collect-nil [] = (λ h. tt, λ h. refl)
collect-nil (none ∷ os) = let rest = collect-nil os in (λ h. (refl, rest.0 h), λ h. rest.1 h.1)
collect-nil (some e ∷ os) = (λ h. cc, λ h. cc (h.0))

pub joined-IsSilent : (os : List (Option Error)) → (errors_join (collect os) ≡ none) ↔ IsSilent os
joined-IsSilent os =
    let iff = collect-nil os in
    (
      λ h. iff.0 (errors_join-none (collect os) h),
      λ h. ap (λ (es : List Error). errors_join es) (iff.1 h),
    )

pub fail_when-none : (b : Bool) (m : Text) → (fail_when b m ≡ none) ↔ (b ≡ false)
fail_when-none true m = (λ h. cc, λ h. cc)
fail_when-none false m = (λ h. refl, λ h. refl)

pub IsSilent-append :
    (os ps : List (Option Error)) → IsSilent (os ++ ps) ↔ (IsSilent os × IsSilent ps)
IsSilent-append [] ps = (λ h. (tt, h), λ h. h.1)
IsSilent-append (o ∷ os) ps =
    let rest = IsSilent-append os ps in
    (λ h. ((h.0, (rest.0 h.1).0), (rest.0 h.1).1), λ h. (h.0.0, rest.1 (h.0.1, h.1)))

pub IsSilent-map :
    {A : Type 0} (f : A → Option Error) (P : A → Type 0) (as_ : List A)
    → ((a : A) → (f a ≡ none) ↔ P a)
    → IsSilent (map f as_) ↔ All P as_
IsSilent-map f P [] iff = (λ h. tt, λ h. tt)
IsSilent-map f P (a ∷ as_) iff =
    let rest = IsSilent-map f P as_ iff in
    (λ h. ((iff a).0 h.0, rest.0 h.1), λ h. ((iff a).1 h.0, rest.1 h.1))

abbrev pub StartsWith : Text → Text → Type 0
StartsWith p s = (rest : Text) × (s ≡ p ++ rest)

pub has_prefix_iff : (s p : Text) → (has_prefix s p ≡ true) ↔ StartsWith p s
has_prefix_iff s p = (
  λ h. (drop_prefix s p, has_prefix-split s p h),
  λ h. ap (λ (t : Text). has_prefix t p) h.1 ∙ has_prefix-append p h.0,
)

not-false : (b : Bool) → (not b ≡ false) ↔ (b ≡ true)
not-false true = (λ h. refl, λ h. refl)
not-false false = (λ h. cc, λ h. cc)

abbrev pub IsLoopback : Text → Type 0
IsLoopback addr = StartsWith (lit "127.0.0.1:") addr ⊎ StartsWith (lit "[::1]:") addr

or-true : (a b : Bool) → ((a || b) ≡ true) ↔ ((a ≡ true) ⊎ (b ≡ true))
or-true true b = (λ h. inl refl, λ h. refl)
or-true false b = (λ h. inr h, λ h. elim h [ inl e ↦ cc | inr e ↦ e ])

pub check_loopback-none :
    (quote : Text → Text) (field addr : Text)
    → (check_loopback quote field addr ≡ none) ↔ IsLoopback addr
unfolding check_loopback
check_loopback-none quote field addr =
    let guard = fail_when-none (not (is_loopback addr)) _ in
    let positive = not-false (is_loopback addr) in
    let either = or-true (has_prefix addr (lit "127.0.0.1:")) (has_prefix addr (lit "[::1]:")) in
    let four = has_prefix_iff addr (lit "127.0.0.1:") in
    let six = has_prefix_iff addr (lit "[::1]:") in
    (
      λ h. elim (either.0 (positive.0 (guard.0 h))) [
        | inl e ↦ inl (four.0 e)
        | inr e ↦ inr (six.0 e)
      ],
      λ h.
          guard.1
            (positive.1 (either.1 (elim h [ inl s ↦ inl (four.1 s) | inr s ↦ inr (six.1 s) ]))),
    )

pub check_absolute-none :
    (quote : Text → Text) (field p : Text)
    → (check_absolute quote field p ≡ none) ↔ StartsWith (lit "/") p
check_absolute-none quote field p =
    let guard = fail_when-none (not (is_absolute p)) _ in
    let positive = not-false (is_absolute p) in
    let rooted = has_prefix_iff p (lit "/") in
    (λ h. rooted.0 (positive.0 (guard.0 h)), λ h. guard.1 (positive.1 (rooted.1 h)))

pub is_empty-false : (s : Text) → (is_empty s ≡ false) ↔ (s ≢ [])
is_empty-false [] = (λ h. cc, λ h. absurd (h refl))
is_empty-false (c ∷ s) = (λ h e. cc, λ h. refl)

pub no_users-false : (us : List Text) → (no_users us ≡ false) ↔ (us ≢ [])
no_users-false [] = (λ h. cc, λ h. absurd (h refl))
no_users-false (u ∷ us) = (λ h e. cc, λ h. refl)

pub eqb_ℤ-zero : (z : ℤ) → (eqb_ℤ z (pos 0) ≡ false) ↔ (z ≢ pos 0)
eqb_ℤ-zero (pos n) = (λ h e. cc ((eqb_iff n 0).1 (zero_of e)), λ h. nonzero h)
  where
    zero_of : pos n ≡ pos 0 → n ≡ 0
    zero_of e = cc

    nonzero : pos n ≢ pos 0 → eqb n 0 ≡ false
    nonzero h = elim (Bool-cases (eqb n 0)) [
      | inl e ↦ absurd (h (ap pos ((eqb_iff n 0).0 e)))
      | inr e ↦ e
    ]
eqb_ℤ-zero (negsuc n) = (λ h e. cc, λ h. refl)
