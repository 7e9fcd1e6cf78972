-- ===== src/Journal/Ids.antt =====
-- The ids of the journal's rows, and what an update by id does.
use snowdeploy.Base.{
  ℕ, ◌+◌, ◌<◌, ◌≡◌, refl, ◌≢◌, inl, inr, eqb, List, [], ◌∷◌, ◌++◌, Option, none, some, Error,
  if◌then◌else◌, arith, Bool-cases,
}
use snowdeploy.Journal.Defs.{Entry}
use snowdeploy.Journal.Table.{
  Fault, at_exec, behind_exec, at_inspect, appended, changed, counted, Table, empty, matches, begin,
  set_rows, affected, update, progress, finish, set_pr, set_digests, set_merge_sha,
}
use snowdeploy.Journal.Receipts.{
  Write, begin_with, progress_to, finish_at, pr_of, digests_of, merge_sha_of, perform, perform_all,
}

-- Ids are fresh: every row has an id below the next one, and no two rows share one.
abbrev pub Below : ℕ → List Entry → Type 0
Below n [] = Unit
Below n (e ∷ es) = (e.id < n) × Below n es

abbrev pub Absent : ℕ → List Entry → Type 0
Absent id [] = Unit
Absent id (e ∷ es) = (e.id ≢ id) × Absent id es

abbrev pub Distinct : List Entry → Type 0
Distinct [] = Unit
Distinct (e ∷ es) = Absent e.id es × Distinct es

pub record IsSound (t : Table) : Type 0 where
  pub ids_below : Below t.next_id t.rows
  pub ids_distinct : Distinct t.rows

module _ (id : ℕ) (f : Entry → Entry) (same : (e : Entry) → (f e).id ≡ e.id) where
  id-changed : (e : Entry) → (if matches id e then f e else e).id ≡ e.id
  id-changed e = elim (Bool-cases (matches id e)) [ inl hit ↦ rw hit (same e) | inr miss ↦ rw miss ]

  pub set_rows-Below : (n : ℕ) (es : List Entry) → Below n es → Below n (set_rows id f es)
  unfolding set_rows
  set_rows-Below n [] b = tt
  set_rows-Below n (e ∷ es) b = (rw id-changed b.0, set_rows-Below n es b.1)

  set_rows-Absent : (j : ℕ) (es : List Entry) → Absent j es → Absent j (set_rows id f es)
  unfolding set_rows
  set_rows-Absent j [] a = tt
  set_rows-Absent j (e ∷ es) a = (rw id-changed a.0, set_rows-Absent j es a.1)

  pub set_rows-Distinct : (es : List Entry) → Distinct es → Distinct (set_rows id f es)
  unfolding set_rows
  set_rows-Distinct [] d = tt
  set_rows-Distinct (e ∷ es) d =
      (rw id-changed (set_rows-Absent e.id es d.0), set_rows-Distinct es d.1)

  changed-IsSound : (t : Table) → IsSound t → IsSound (changed id f t)
  changed-IsSound t s = record {
    ids_below = set_rows-Below t.next_id t.rows s.ids_below;
    ids_distinct = set_rows-Distinct t.rows s.ids_distinct;
  }

  counted-IsSound :
      (inspect : Option Error) (t : Table) → IsSound t → IsSound (counted inspect id f t).1
  counted-IsSound inspect t s = elim (Bool-cases (eqb (affected id t.rows) 1)) [
    | inl one ↦ rw one (changed-IsSound t s)
    | inr other ↦ rw other (changed-IsSound t s)
  ]

  pub update-IsSound :
      (fault : Option Fault) (t : Table) → IsSound t → IsSound (update fault id f t).1
  unfolding update
  update-IsSound (some (at_exec e)) t s = s
  update-IsSound (some (behind_exec e)) t s = changed-IsSound t s
  update-IsSound (some (at_inspect e)) t s = counted-IsSound (some e) t s
  update-IsSound none t s = counted-IsSound none t s

Below-append :
    (n : ℕ) (es : List Entry) (e : Entry) → Below n es → e.id ≡ n → Below (n + 1) (es ++ e ∷ [])
Below-append n [] e b p = (omega arith, tt)
Below-append n (d ∷ es) e b p = (omega (arith, b.0), Below-append n es e b.1 p)

Absent-append :
    (j : ℕ) (es : List Entry) (e : Entry) → Absent j es → e.id ≢ j → Absent j (es ++ e ∷ [])
Absent-append j [] e a p = (p, tt)
Absent-append j (d ∷ es) e a p = (a.0, Absent-append j es e a.1 p)

Distinct-append :
    (n : ℕ) (es : List Entry) (e : Entry)
    → Below n es
    → Distinct es
    → e.id ≡ n
    → Distinct (es ++ e ∷ [])
Distinct-append n [] e b d p = (tt, tt)
Distinct-append n (f ∷ es) e b d p =
    (Absent-append f.id es e d.0 (λ q. omega (arith, b.0)), Distinct-append n es e b.1 d.1 p)

appended-IsSound : (now : ℕ) (e : Entry) (t : Table) → IsSound t → IsSound (appended now e t)
appended-IsSound now e t s = record {
  ids_below = Below-append t.next_id t.rows _ s.ids_below refl;
  ids_distinct = Distinct-append t.next_id t.rows _ s.ids_below s.ids_distinct refl;
}

begin-IsSound :
    (fault : Option Fault) (now : ℕ) (e : Entry) (t : Table)
    → IsSound t
    → IsSound (begin fault now e t).1
unfolding begin
begin-IsSound (some (at_exec f)) now e t s = s
begin-IsSound (some (behind_exec f)) now e t s = appended-IsSound now e t s
begin-IsSound (some (at_inspect f)) now e t s = appended-IsSound now e t s
begin-IsSound none now e t s = appended-IsSound now e t s

perform-IsSound :
    (fault : Option Fault) (w : Write) (t : Table) → IsSound t → IsSound (perform fault w t)
unfolding progress finish set_pr set_digests set_merge_sha
perform-IsSound fault (begin_with now e) t s = begin-IsSound fault now e t s
perform-IsSound fault (progress_to now id st detail) t s = update-IsSound id _ (λ e. refl) fault t s
perform-IsSound fault (finish_at now id st detail) t s = update-IsSound id _ (λ e. refl) fault t s
perform-IsSound fault (pr_of id n) t s = update-IsSound id _ (λ e. refl) fault t s
perform-IsSound fault (digests_of id old new) t s = update-IsSound id _ (λ e. refl) fault t s
perform-IsSound fault (merge_sha_of id sha) t s = update-IsSound id _ (λ e. refl) fault t s

-- Any writes, failed ones included, keep the ids of the rows distinct and below the next id.
perform_all-IsSound :
    (ws : List (Option Fault × Write)) (t : Table) → IsSound t → IsSound (perform_all ws t)
perform_all-IsSound [] t s = s
perform_all-IsSound ((f, w) ∷ ws) t s =
    perform_all-IsSound ws (perform f w t) (perform-IsSound f w t s)

empty-IsSound : IsSound empty
empty-IsSound = record { ids_below = tt; ids_distinct = tt }
