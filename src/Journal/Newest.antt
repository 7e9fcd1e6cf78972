-- ===== src/Journal/Newest.antt =====
-- The journal's queries (internal/journal/journal.go) answer from the newest rows that fit.
use snowdeploy.Base.{
  ℕ, zero, suc, ◌≤◌, Text, ◌≡◌, refl, In, All, ◌⊎◌, inl, inr, Bool, true, false, not, ◌&&◌, ◌==◌,
  List, [], ◌∷◌, none, Error, errors_is, no_healthy_deploy, Result, ok, err, filter, take, length,
  length-take, arith,
}
use snowdeploy.Base.Int.{ℤ, pos, negsuc}
use snowdeploy.Journal.Defs.{Entry}
use snowdeploy.Journal.Table.{Table}
use snowdeploy.Journal.Queries.{
  is_newer, order_by, limit, recent, healthy_of, last_healthy_digest, first_digest,
}
use snowdeploy.Journal.Order.{
  NewestFirst, order_by-NewestFirst, order_by-In, In-filter, All-In, head_newest, none_ordered,
}

-- Of the entries that fit, the answer is the digest of a newest one; there is an error only if none
-- fits.
abbrev pub IsNewestOf : (Entry → Bool) → Table → Result Text → Type 0
IsNewestOf fits t (ok g) =
    (e : Entry) × In e t.rows
    × (fits e ≡ true)
    × (e.new_digest ≡ g)
    × ((f : Entry) → In f t.rows → fits f ≡ true → is_newer f e ≡ false)
IsNewestOf fits t (err x) =
    (errors_is x no_healthy_deploy ≡ true) × ((f : Entry) → In f t.rows → fits f ≡ true → ⊥)

abbrev pub healthy_other : Text → Text → Entry → Bool
healthy_other service not_digest e = healthy_of service e && not (e.new_digest == not_digest)

module _ (fits : Entry → Bool) (t : Table) (missing : Error)
    (says : errors_is missing no_healthy_deploy ≡ true) where
  first-IsNewestOf :
      (l : List Entry)
      → order_by is_newer (filter fits t.rows) ≡ l
      → IsNewestOf fits t (first_digest l missing)
  first-IsNewestOf [] e =
      (says, λ f m p. none_ordered (filter fits t.rows) f e ((In-filter fits f t.rows).1 (m, p)))
  first-IsNewestOf (f ∷ fs) e =
      let (found, newest) = head_newest (filter fits t.rows) f fs e in
      let (row, fit) = (In-filter fits f t.rows).0 found in
      (f, row, fit, refl, λ x m p. newest x ((In-filter fits x t.rows).1 (m, p)))

-- Where the driver does not fail, the last healthy digest is that of a newest row of the service that
-- reached healthy with a digest; it is missing only where there is no such row.
last_healthy_digest-newest :
    (service : Text) (t : Table)
    → IsNewestOf (healthy_of service) t (last_healthy_digest none service t)
unfolding last_healthy_digest
last_healthy_digest-newest service t = first-IsNewestOf (healthy_of service) t _ refl _ refl

All-take : (P : Entry → Type 0) (k : ℕ) (es : List Entry) → All P es → All P (take k es)
All-take P zero es h = tt
All-take P (suc k) [] h = tt
All-take P (suc k) (e ∷ es) h = (h.0, All-take P k es h.1)

take-NewestFirst : (k : ℕ) (es : List Entry) → NewestFirst es → NewestFirst (take k es)
take-NewestFirst zero es s = tt
take-NewestFirst (suc k) [] s = tt
take-NewestFirst (suc k) (e ∷ es) s = (All-take _ k es s.0, take-NewestFirst k es s.1)

In-take : (k : ℕ) (x : Entry) (es : List Entry) → In x (take k es) → In x es
In-take zero x es m = absurd m
In-take (suc k) x [] m = absurd m
In-take (suc k) x (e ∷ es) (inl p) = inl p
In-take (suc k) x (e ∷ es) (inr m) = inr (In-take k x es m)

-- What a limit leaves out is not newer than anything that it lets through.
left_out :
    (k : ℕ) (x : Entry) (es : List Entry)
    → NewestFirst es
    → In x es
    → In x (take k es) ⊎ ((k ≤ length (take k es)) × All (λ f. is_newer x f ≡ false) (take k es))
left_out zero x es s m = inr (omega arith, tt)
left_out (suc k) x [] s m = absurd m
left_out (suc k) x (e ∷ es) s (inl p) = inl (inl p)
left_out (suc k) x (e ∷ es) s (inr m) = elim (left_out k x es s.1 m) [
  | inl n ↦ inl (inr n)
  | inr (full, older) ↦ inr (omega arith, (All-In (λ f. is_newer f e ≡ false) x es s.0 m, older))
]

-- The most rows that are asked for: as many as the limit says, and 20 where it is not positive.
abbrev pub most : ℤ → ℕ
most (pos zero) = 20
most (pos (suc n)) = suc n
most (negsuc n) = 20

limit-most : (n : ℤ) → limit n ≡ most n
limit-most (pos zero) = refl
limit-most (pos (suc n)) = refl
limit-most (negsuc n) = refl

-- The history of a service: newest first, at most the limit, rows of the service only; a row of the
-- service that is left out is not newer than any in the answer, and the limit is reached.
abbrev pub IsHistory : Text → ℤ → Table → List Entry → Type 0
IsHistory service n t es =
    NewestFirst es
    × (length es ≤ most n)
    × ((e : Entry) → In e es → In e t.rows × ((e.service == service) ≡ true))
    × ((e : Entry)
        → In e t.rows
        → (e.service == service) ≡ true
        → In e es ⊎ ((most n ≤ length es) × All (λ f. is_newer e f ≡ false) es))

pub recent-IsHistory :
    (service : Text) (n : ℤ) (t : Table)
    → (es : List Entry) × (recent none service n t ≡ ok es) × IsHistory service n t es
unfolding recent
recent-IsHistory service n t = rw (limit-most n) (
    let own = λ (e : Entry). e.service == service in
    let rows : List Entry = order_by is_newer (filter own t.rows) in
    let sorted : NewestFirst rows = order_by-NewestFirst (filter own t.rows) in
    (
      take (most n) rows,
      refl,
      (
        take-NewestFirst (most n) rows sorted,
        omega (arith, length-take (most n) rows),
        λ e m.
            (In-filter own e t.rows).0
              ((order_by-In is_newer e (filter own t.rows)).0 (In-take (limit n) e rows m)),
        λ e m p.
            left_out (limit n) e rows sorted
              ((order_by-In is_newer e (filter own t.rows)).1 ((In-filter own e t.rows).1 (m, p))),
      ),
    ))
