-- ===== src/Journal/Closing.antt =====
-- The rows of the journal behind a receipt, and behind a query of the unfinished ones.
use snowdeploy.Base.{
  ℕ, ◌≡◌, ap, sym, ◌≢◌, In, ◌∙◌, inl, inr, Bool, true, false, List, [], ◌∷◌, filter, arith,
  Bool-cases, if◌then◌else◌,
}
use snowdeploy.Journal.Defs.{Entry}
use snowdeploy.Journal.Table.{is_unfinished, matches, set_rows}
use snowdeploy.Journal.Queries.{insert_by, order_by}
use snowdeploy.Journal.Ids.{Absent, Distinct}

-- A row that an update by id does not match.
pub set_rows_miss :
    (id : ℕ) (f : Entry → Entry) (r : Entry) (rows : List Entry)
    → matches id r ≡ false
    → In r rows
    → In r (set_rows id f rows)
unfolding set_rows
set_rows_miss id f r [] m h = absurd h
set_rows_miss id f r (e ∷ es) m (inl p) = inl (
    p
    ∙ sym (ap (λ (b : Bool). if b then f e else e) (sym (ap (λ (x : Entry). matches id x) p) ∙ m)))
set_rows_miss id f r (e ∷ es) m (inr h) = inr (set_rows_miss id f r es m h)

-- An unfinished row behind a receipt was there before, and the receipt is not its own.
pub set_rows_left :
    (id : ℕ) (f : Entry → Entry) (r : Entry) (rows : List Entry)
    → ((e : Entry) → is_unfinished (f e) ≡ false)
    → is_unfinished r ≡ true
    → In r (set_rows id f rows)
    → In r rows × (matches id r ≡ false)
unfolding set_rows
set_rows_left id f r [] done live m = absurd m
set_rows_left id f r (e ∷ es) done live (inl p) = elim (Bool-cases (matches id e)) [
  | inl h ↦
      let same : r ≡ f e = rw h at p in
      let over : is_unfinished r ≡ false = ap (λ (x : Entry). is_unfinished x) same ∙ done e in
      absurd (ground (arith, over, live))
  | inr h ↦ let same : r ≡ e = rw h at p in (inl same, ap (λ (x : Entry). matches id x) same ∙ h)
]
set_rows_left id f r (e ∷ es) done live (inr m) =
    let (row, other) = set_rows_left id f r es done live m in (inr row, other)

Absent-filter : (p : Entry → Bool) (j : ℕ) (es : List Entry) → Absent j es → Absent j (filter p es)
Absent-filter p j [] a = tt
Absent-filter p j (e ∷ es) a = elim (Bool-cases (p e)) [
  | inl q ↦ rw q (a.0, Absent-filter p j es a.1)
  | inr q ↦ rw q (Absent-filter p j es a.1)
]

pub Distinct-filter : (p : Entry → Bool) (es : List Entry) → Distinct es → Distinct (filter p es)
Distinct-filter p [] d = tt
Distinct-filter p (e ∷ es) d = elim (Bool-cases (p e)) [
  | inl q ↦ rw q (Absent-filter p e.id es d.0, Distinct-filter p es d.1)
  | inr q ↦ rw q (Distinct-filter p es d.1)
]

module _ (before : Entry → Entry → Bool) where
  Absent-insert_by :
      (j : ℕ) (e : Entry) (es : List Entry)
      → e.id ≢ j
      → Absent j es
      → Absent j (insert_by before e es)
  unfolding insert_by
  Absent-insert_by j e [] differ a = (differ, tt)
  Absent-insert_by j e (f ∷ fs) differ a = elim (Bool-cases (before f e)) [
    | inl q ↦ rw q (a.0, Absent-insert_by j e fs differ a.1)
    | inr q ↦ rw q (differ, a)
  ]

  Absent-order_by : (j : ℕ) (es : List Entry) → Absent j es → Absent j (order_by before es)
  unfolding order_by
  Absent-order_by j [] a = tt
  Absent-order_by j (e ∷ es) a =
      Absent-insert_by j e (order_by before es) a.0 (Absent-order_by j es a.1)

  Distinct-insert_by :
      (e : Entry) (es : List Entry)
      → Absent e.id es
      → Distinct es
      → Distinct (insert_by before e es)
  unfolding insert_by
  Distinct-insert_by e [] a d = (tt, tt)
  Distinct-insert_by e (f ∷ fs) a d = elim (Bool-cases (before f e)) [
    | inl q ↦
        rw q (Absent-insert_by f.id e fs (λ p. a.0 (sym p)) d.0, Distinct-insert_by e fs a.1 d.1)
    | inr q ↦ rw q (a, d)
  ]

  pub Distinct-order_by : (es : List Entry) → Distinct es → Distinct (order_by before es)
  unfolding order_by
  Distinct-order_by [] d = tt
  Distinct-order_by (e ∷ es) d =
      Distinct-insert_by e (order_by before es) (Absent-order_by e.id es d.0)
        (Distinct-order_by es d.1)
