-- ===== src/Journal/Receipts.antt =====
-- A finished entry of the journal is a receipt: it is never rewritten.
use snowdeploy.Base.{
  ℕ, Text, ◌≡◌, ap, sym, In, In-append_left, ◌∙◌, inl, inr, eqb, Bool, false, List, [], ◌∷◌, Option,
  none, some, Error, if◌then◌else◌, arith, Bool-cases,
}
use snowdeploy.Journal.Defs.{Entry, State}
use snowdeploy.Journal.Table.{
  Fault, at_exec, behind_exec, at_inspect, counted, Table, is_unfinished, matches, begin, set_rows,
  affected, update, progress, finish, set_pr, set_digests, set_merge_sha,
}

-- A statement that writes the journal.
pub data Write : Type 0 where
  begin_with : ℕ → Entry → Write
  progress_to finish_at : ℕ → ℕ → State → Text → Write
  pr_of : ℕ → ℕ → Write
  digests_of : ℕ → Text → Text → Write
  merge_sha_of : ℕ → Text → Write

-- The table behind it.
abbrev pub perform : Option Fault → Write → Table → Table
perform f (begin_with now e) t = (begin f now e t).1
perform f (progress_to now id st detail) t = (progress f id st detail t).1
perform f (finish_at now id st detail) t = (finish f id now st detail t).1
perform f (pr_of id n) t = (set_pr f id n t).1
perform f (digests_of id old new) t = (set_digests f id old new t).1
perform f (merge_sha_of id sha) t = (set_merge_sha f id sha t).1

abbrev pub perform_all : List (Option Fault × Write) → Table → Table
perform_all [] t = t
perform_all ((f, w) ∷ ws) t = perform_all ws (perform f w t)

unmatched : (id : ℕ) (e : Entry) → is_unfinished e ≡ false → matches id e ≡ false
unmatched id e done = ground arith

-- A row that is finished stays as it is.
set_rows-In :
    (id : ℕ) (f : Entry → Entry) (r : Entry) (rows : List Entry)
    → is_unfinished r ≡ false
    → In r rows
    → In r (set_rows id f rows)
unfolding set_rows
set_rows-In id f r [] done m = absurd m
set_rows-In id f r (e ∷ es) done (inl p) = inl (
    p
    ∙ ap (λ (b : Bool). if b then f e else e)
        (sym (unmatched id e (ap (λ (x : Entry). is_unfinished x) (sym p) ∙ done))))
set_rows-In id f r (e ∷ es) done (inr m) = inr (set_rows-In id f r es done m)

counted-In :
    (inspect : Option Error) (id : ℕ) (f : Entry → Entry) (r : Entry) (t : Table)
    → is_unfinished r ≡ false
    → In r t.rows
    → In r (counted inspect id f t).1.rows
counted-In inspect id f r t done m = elim (Bool-cases (eqb (affected id t.rows) 1)) [
  | inl one ↦ rw one (set_rows-In id f r t.rows done m)
  | inr other ↦ rw other (set_rows-In id f r t.rows done m)
]

pub update-In :
    (fault : Option Fault) (id : ℕ) (f : Entry → Entry) (r : Entry) (t : Table)
    → is_unfinished r ≡ false
    → In r t.rows
    → In r (update fault id f t).1.rows
unfolding update
update-In (some (at_exec e)) id f r t done m = m
update-In (some (behind_exec e)) id f r t done m = set_rows-In id f r t.rows done m
update-In (some (at_inspect e)) id f r t done m = counted-In (some e) id f r t done m
update-In none id f r t done m = counted-In none id f r t done m

perform-In :
    (fault : Option Fault) (w : Write) (r : Entry) (t : Table)
    → is_unfinished r ≡ false
    → In r t.rows
    → In r (perform fault w t).rows
unfolding begin progress finish set_pr set_digests set_merge_sha
perform-In (some (at_exec e)) (begin_with now entry) r t done m = m
perform-In (some (behind_exec e)) (begin_with now entry) r t done m = In-append_left r t.rows _ m
perform-In (some (at_inspect e)) (begin_with now entry) r t done m = In-append_left r t.rows _ m
perform-In none (begin_with now entry) r t done m = In-append_left r t.rows _ m
perform-In fault (progress_to now id st detail) r t done m = update-In fault id _ r t done m
perform-In fault (finish_at now id st detail) r t done m = update-In fault id _ r t done m
perform-In fault (pr_of id n) r t done m = update-In fault id _ r t done m
perform-In fault (digests_of id old new) r t done m = update-In fault id _ r t done m
perform-In fault (merge_sha_of id sha) r t done m = update-In fault id _ r t done m

-- A finished row stays in the table as it is, through any writes, those included that fail, before or
-- behind their statement.
pub receipt_kept :
    (ws : List (Option Fault × Write)) (r : Entry) (t : Table)
    → is_unfinished r ≡ false
    → In r t.rows
    → In r (perform_all ws t).rows
receipt_kept [] r t done m = m
receipt_kept ((f, w) ∷ ws) r t done m =
    receipt_kept ws r (perform f w t) done (perform-In f w r t done m)
