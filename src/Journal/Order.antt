-- ===== src/Journal/Order.antt =====
-- The order of the journal's queries: newest first, and nothing is lost or made up.
use mathlib.Core.Path.{subst}
use snowdeploy.Base.{
  ◌≡◌, refl, ap, sym, In, All, ◌∙◌, ◌⊎◌, ◌↔◌, inl, inr, Bool, true, false, List, [], ◌∷◌, filter,
  arith, Bool-cases,
}
use snowdeploy.Journal.Defs.{Entry}
use snowdeploy.Journal.Queries.{is_newer, insert_by, order_by}

-- No item is newer than one in front of it.
abbrev pub NewestFirst : List Entry → Type 0
NewestFirst [] = Unit
NewestFirst (e ∷ es) = All (λ f. is_newer f e ≡ false) es × NewestFirst es

pub is_newer_trans :
    (a b c : Entry) → is_newer b a ≡ false → is_newer c b ≡ false → is_newer c a ≡ false
is_newer_trans a b c p q = ground arith

is_newer_asym : (a b : Entry) → is_newer a b ≡ true → is_newer b a ≡ false
is_newer_asym a b p = ground arith

All-below :
    (a b : Entry) (es : List Entry)
    → is_newer b a ≡ false
    → All (λ f. is_newer f b ≡ false) es
    → All (λ f. is_newer f a ≡ false) es
All-below a b [] p h = tt
All-below a b (c ∷ es) p h = (is_newer_trans a b c p h.0, All-below a b es p h.1)

All-insert_by :
    (P : Entry → Type 0) (before : Entry → Entry → Bool) (e : Entry) (es : List Entry)
    → P e
    → All P es
    → All P (insert_by before e es)
unfolding insert_by
All-insert_by P before e [] p h = (p, tt)
All-insert_by P before e (f ∷ es) p h = elim (Bool-cases (before f e)) [
  | inl q ↦ rw q (h.0, All-insert_by P before e es p h.1)
  | inr q ↦ rw q (p, h)
]

insert_by-NewestFirst :
    (e : Entry) (es : List Entry) → NewestFirst es → NewestFirst (insert_by is_newer e es)
unfolding insert_by
insert_by-NewestFirst e [] s = (tt, tt)
insert_by-NewestFirst e (f ∷ es) s = elim (Bool-cases (is_newer f e)) [
  | inl q ↦
      rw q (All-insert_by _ is_newer e es (is_newer_asym f e q) s.0, insert_by-NewestFirst e es s.1)
  | inr q ↦ rw q ((q, All-below e f es q s.0), s)
]

pub order_by-NewestFirst : (es : List Entry) → NewestFirst (order_by is_newer es)
unfolding order_by
order_by-NewestFirst [] = tt
order_by-NewestFirst (e ∷ es) = insert_by-NewestFirst e _ (order_by-NewestFirst es)

insert_by-In :
    (before : Entry → Entry → Bool) (e x : Entry) (es : List Entry)
    → In x (insert_by before e es) ↔ ((x ≡ e) ⊎ In x es)
unfolding insert_by
insert_by-In before e x [] = (λ m. m, λ m. m)
insert_by-In before e x (f ∷ es) = elim (Bool-cases (before f e)) [
  | inl q ↦ rw q (
    elim [ inl p ↦ inr (inl p) | inr m ↦ swap ((insert_by-In before e x es).0 m) ],
    elim [
      | inl p ↦ inr ((insert_by-In before e x es).1 (inl p))
      | inr (inl p) ↦ inl p
      | inr (inr m) ↦ inr ((insert_by-In before e x es).1 (inr m))
    ],
  )
  | inr q ↦ rw q (λ m. m, λ m. m)
]
  where
    swap : (x ≡ e) ⊎ In x es → (x ≡ e) ⊎ (x ≡ f) ⊎ In x es
    swap (inl p) = inl p
    swap (inr m) = inr (inr m)

pub order_by-In :
    (before : Entry → Entry → Bool) (x : Entry) (es : List Entry)
    → In x (order_by before es) ↔ In x es
unfolding order_by
order_by-In before x [] = (λ m. m, λ m. m)
order_by-In before x (e ∷ es) =
    let (down, up) = insert_by-In before e x (order_by before es) in
    let (within, back) = order_by-In before x es in
    (
      λ m. elim (down m) [ inl p ↦ inl p | inr r ↦ inr (within r) ],
      elim [ inl p ↦ up (inl p) | inr r ↦ up (inr (back r)) ],
    )

pub In-filter :
    (p : Entry → Bool) (x : Entry) (es : List Entry) → In x (filter p es) ↔ (In x es × (p x ≡ true))
In-filter p x [] = (λ m. absurd m, λ m. m.0)
In-filter p x (e ∷ es) = elim (Bool-cases (p e)) [
  | inl q ↦ rw q (
    elim [
      | inl same ↦ (inl same, ap p same ∙ q)
      | inr m ↦ (inr ((In-filter p x es).0 m).0, ((In-filter p x es).0 m).1)
    ],
    λ (m, r). elim m [ inl same ↦ inl same | inr n ↦ inr ((In-filter p x es).1 (n, r)) ],
  )
  | inr q ↦ rw q (
    λ m. (inr ((In-filter p x es).0 m).0, ((In-filter p x es).0 m).1),
    λ (m, r). elim m [ inl same ↦ cc (ap p same) | inr n ↦ (In-filter p x es).1 (n, r) ],
  )
]

pub All-In : (P : Entry → Type 0) (x : Entry) (es : List Entry) → All P es → In x es → P x
All-In P x [] h m = absurd m
All-In P x (e ∷ es) h (inl same) = subst P (sym same) h.0
All-In P x (e ∷ es) h (inr m) = All-In P x es h.1 m

pub is_newer_irrefl : (x y : Entry) → x ≡ y → is_newer x y ≡ false
is_newer_irrefl x y same = subst (λ (z : Entry). is_newer x z ≡ false) same (is_newer_self x)
  where
    is_newer_self : (e : Entry) → is_newer e e ≡ false
    is_newer_self e = ground arith

-- The first of the ordered rows is a newest one.
pub head_newest :
    (es : List Entry) (f : Entry) (fs : List Entry)
    → order_by is_newer es ≡ f ∷ fs
    → In f es × ((x : Entry) → In x es → is_newer x f ≡ false)
head_newest es f fs e =
    let sorted : NewestFirst (f ∷ fs) = subst NewestFirst e (order_by-NewestFirst es) in
    (
      (order_by-In is_newer f es).0 (subst (λ (l : List Entry). In f l) (sym e) (inl refl)),
      λ x m.
          newest sorted x (subst (λ (l : List Entry). In x l) e ((order_by-In is_newer x es).1 m)),
    )
  where
    newest : NewestFirst (f ∷ fs) → (x : Entry) → In x (f ∷ fs) → is_newer x f ≡ false
    newest sorted x (inl same) = is_newer_irrefl x f same
    newest sorted x (inr m) = All-In (λ y. is_newer y f ≡ false) x fs sorted.0 m

pub none_ordered : (es : List Entry) (x : Entry) → order_by is_newer es ≡ [] → In x es → ⊥
none_ordered es x e m = subst (λ (l : List Entry). In x l) e ((order_by-In is_newer x es).1 m)
