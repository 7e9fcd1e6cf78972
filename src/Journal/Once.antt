-- ===== src/Journal/Once.antt =====
-- An entry of the journal is finished exactly once.
use mathlib.Core.Path.{subst}
use snowdeploy.Base.{
  ℕ, suc, Text, ◌≡◌, refl, ap, sym, ◌≢◌, In, ◌∙◌, inl, inr, true, false, List, [], ◌∷◌, none, some,
  Error, errors_is, already_finished, arith, Bool-cases,
}
use snowdeploy.Journal.Defs.{Entry, State}
use snowdeploy.Journal.Table.{
  at_inspect, Table, is_unfinished, matches, set_rows, affected, has_row, explain_no_update, update,
  finish,
}
use snowdeploy.Journal.Ids.{IsSound, Absent, Distinct}

affected_of_Absent : (id : ℕ) (es : List Entry) → Absent id es → affected id es ≡ 0
unfolding affected
affected_of_Absent id [] a = refl
affected_of_Absent id (e ∷ es) a = ground (arith, a.0, affected_of_Absent id es a.1)

pub hit : (r : Entry) → is_unfinished r ≡ true → matches r.id r ≡ true
hit r live = ground arith

hit_eq : (r e : Entry) → r ≡ e → is_unfinished r ≡ true → matches r.id e ≡ true
hit_eq r e p live = ap (λ (x : Entry). matches r.id x) (sym p) ∙ hit r live

pub miss : (j : ℕ) (e : Entry) → e.id ≢ j → matches j e ≡ false
miss j e differ = ground arith

pub miss_finished : (j : ℕ) (e : Entry) → is_unfinished e ≡ false → matches j e ≡ false
miss_finished j e done = ground arith

pub Absent-of_In : (j : ℕ) (r : Entry) (es : List Entry) → Absent j es → In r es → r.id ≢ j
Absent-of_In j r [] a m = absurd m
Absent-of_In j r (e ∷ es) a (inl p) = λ q. a.0 (ap (λ (x : Entry). x.id) (sym p) ∙ q)
Absent-of_In j r (e ∷ es) a (inr m) = Absent-of_In j r es a.1 m

-- Exactly one row matches the id of an unfinished row.
pub affected_of_In :
    (r : Entry) (es : List Entry)
    → Distinct es
    → In r es
    → is_unfinished r ≡ true
    → affected r.id es ≡ 1
unfolding affected
affected_of_In r [] d m live = absurd m
affected_of_In r (e ∷ es) d (inl p) live =
    rw (hit_eq r e p live)
      (ap suc (affected_of_Absent r.id es (subst (λ (x : Entry). Absent x.id es) (sym p) d.0)))
affected_of_In r (e ∷ es) d (inr m) live =
    rw (miss r.id e (λ q. Absent-of_In e.id r es d.0 m (sym q))) (affected_of_In r es d.1 m live)

pub set_rows_hit :
    (f : Entry → Entry) (r : Entry) (es : List Entry)
    → In r es
    → is_unfinished r ≡ true
    → In (f r) (set_rows r.id f es)
unfolding set_rows
set_rows_hit f r [] m live = absurd m
set_rows_hit f r (e ∷ es) (inl p) live = inl (rw (hit_eq r e p live) (ap f p))
set_rows_hit f r (e ∷ es) (inr m) live = inr (set_rows_hit f r es m live)

-- Once finished, no row matches.
affected-set_rows :
    (id : ℕ) (f : Entry → Entry) (es : List Entry)
    → ((e : Entry) → is_unfinished (f e) ≡ false)
    → affected id (set_rows id f es) ≡ 0
unfolding affected set_rows
affected-set_rows id f [] done = refl
affected-set_rows id f (e ∷ es) done = elim (Bool-cases (matches id e)) [
  | inl h ↦ rw h (rw (miss_finished id (f e) (done e)) (affected-set_rows id f es done))
  | inr h ↦ rw h (rw h (affected-set_rows id f es done))
]

set_rows_none :
    (id : ℕ) (f : Entry → Entry) (es : List Entry) → affected id es ≡ 0 → set_rows id f es ≡ es
unfolding affected set_rows
set_rows_none id f [] none_ = refl
set_rows_none id f (e ∷ es) none_ = elim (Bool-cases (matches id e)) [
  | inl h ↦ absurd (omega (arith, rw h at none_))
  | inr h ↦ rw h (ap (λ (rest : List Entry). e ∷ rest) (set_rows_none id f es (rw h at none_)))
]

has_row_of_In : (r : Entry) (es : List Entry) → In r es → has_row r.id es ≡ true
unfolding has_row
has_row_of_In r [] m = absurd m
has_row_of_In r (e ∷ es) (inl p) = ground (arith, ap (λ (x : Entry). x.id) p)
has_row_of_In r (e ∷ es) (inr m) = ground (arith, has_row_of_In r es m)

abbrev pub finished_as : ℕ → State → Text → Entry → Entry
finished_as now st detail e = record e { state = st; detail = detail; finished_at = some now }

-- The table behind a receipt that is written.
abbrev pub sealed : ℕ → ℕ → State → Text → Table → Table
sealed id now st detail t = record t { rows = set_rows id (finished_as now st detail) t.rows }

pub finish_written :
    (r : Entry) (now : ℕ) (st : State) (detail : Text) (t : Table)
    → affected r.id t.rows ≡ 1
    → finish none r.id now st detail t ≡ (none, sealed r.id now st detail t)
unfolding finish update
finish_written r now st detail t one = rw one

-- The SELECT is not reached where a row was written.
pub finish_written_at :
    (f : Error) (r : Entry) (now : ℕ) (st : State) (detail : Text) (t : Table)
    → affected r.id t.rows ≡ 1
    → finish (some (at_inspect f)) r.id now st detail t ≡ (none, sealed r.id now st detail t)
unfolding finish update
finish_written_at f r now st detail t one = rw one

update_refused :
    (id : ℕ) (change : Entry → Entry) (t : Table)
    → affected id t.rows ≡ 0
    → update none id change t ≡ (some (explain_no_update none id t), t)
unfolding update
update_refused id change t no_row = rw no_row (
    ap
      (λ (rows : List Entry).
        (some (explain_no_update none id (record t { rows = rows })), record t { rows = rows }))
      (set_rows_none id change t.rows no_row))

explain_finished :
    (id : ℕ) (t : Table)
    → has_row id t.rows ≡ true
    → errors_is (explain_no_update none id t) already_finished ≡ true
unfolding explain_no_update
explain_finished id t row = rw row

-- The first receipt of an unfinished entry is written. Behind it every update of the entry, by
-- whatever statement, is refused as already finished and changes nothing.
pub finish_once :
    (r : Entry) (now : ℕ) (st : State) (detail : Text) (t : Table)
    → IsSound t
    → In r t.rows
    → is_unfinished r ≡ true
    → let (e, t') = finish none r.id now st detail t in
      (e ≡ none)
      × In (record r { state = st; detail = detail; finished_at = some now }) t'.rows
      × ((change : Entry → Entry)
          → update none r.id change t' ≡ (some (explain_no_update none r.id t'), t'))
      × (errors_is (explain_no_update none r.id t') already_finished ≡ true)
finish_once r now st detail t s m live =
    let found : In (finished_as now st detail r)
        (set_rows r.id (finished_as now st detail) t.rows) =
      set_rows_hit (finished_as now st detail) r t.rows m live in
    rw (finish_written r now st detail t (affected_of_In r t.rows s.ids_distinct m live)) (
      refl,
      found,
      λ change.
          update_refused r.id change (sealed r.id now st detail t)
            (affected-set_rows r.id (finished_as now st detail) t.rows (λ e. refl)),
      explain_finished r.id (sealed r.id now st detail t)
          (has_row_of_In (finished_as now st detail r) _ found),
    )
