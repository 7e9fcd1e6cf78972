-- ===== src/Daemon/Orphans/Loop.antt =====
-- The loop over the orphans, one receipt after the other (cmd/snowdeployd/main.go).
use mathlib.Core.Path.{subst}
use snowdeploy.Base.{
  ℕ, Text, ◌≡◌, refl, ap, sym, ◌≢◌, In, ◌∙◌, ◌⊎◌, inl, inr, true, false, List, [], ◌∷◌, Option,
  none, some, Error, arith, Bool-cases,
}
use snowdeploy.Journal.Defs.{Entry, State}
use snowdeploy.Journal.Table.{
  Fault, at_exec, behind_exec, at_inspect, Table, is_unfinished, matches, update, finish,
}
use snowdeploy.Journal.Receipts.{update-In}
use snowdeploy.Journal.Ids.{IsSound, Distinct, set_rows-Below, set_rows-Distinct}
use snowdeploy.Journal.Once.{
  hit, miss, Absent-of_In, affected_of_In, set_rows_hit, finished_as, sealed, finish_written,
  finish_written_at,
}
use snowdeploy.Journal.Closing.{set_rows_miss, set_rows_left}
use snowdeploy.Daemon.Orphans.{orphan_detail, closed_or_failed, close_out, close_all}

module _ (quote : Text → Text) (fault : ℕ → Option Fault) (now : ℕ → ℕ) where
  -- The row of an orphan, behind its receipt.
  abbrev pub closed_out : Entry → Entry
  closed_out e = finished_as (now e.id) State.failed (orphan_detail quote fault now e) e

  abbrev pub IsOrphans : List Entry → Table → Type 0
  IsOrphans es t =
      ((r : Entry) → In r es → In r t.rows × (is_unfinished r ≡ true))
      × ((r : Entry) → In r t.rows → is_unfinished r ≡ true → In r es)

  -- Each orphan is closed, or one of them met a fault of the driver.
  abbrev pub Closes : List Entry → Option Error → Table → Type 0
  Closes es none t' =
      ((r : Entry) → In r es → In (closed_out r) t'.rows)
      × ((r : Entry) → In r t'.rows → is_unfinished r ≡ false)
  Closes es (some e) t' =
      ((id : ℕ) × (fault id ≢ none))
      × ((r : Entry) → In r es → In r t'.rows ⊎ In (closed_out r) t'.rows)

  finish_failed :
      (e : Entry) (f : Error) (t : Table)
      → fault e.id ≡ some (at_exec f)
      → ((close_out quote fault now e t).1 ≡ t)
        × ((g : Error) × ((close_out quote fault now e t).0 ≡ some g))
  unfolding finish update
  finish_failed e f t h = rw h (refl, (_, refl))

  finish_failed_late :
      (e : Entry) (f : Error) (t : Table)
      → fault e.id ≡ some (behind_exec f)
      → ((close_out quote fault now e t).1
          ≡ sealed e.id (now e.id) State.failed (orphan_detail quote fault now e) t)
        × ((g : Error) × ((close_out quote fault now e t).0 ≡ some g))
  unfolding finish update
  finish_failed_late e f t h = rw h (refl, (_, refl))

  close_out-kept :
      (e r : Entry) (t : Table)
      → is_unfinished r ≡ false
      → In r t.rows
      → In r (close_out quote fault now e t).1.rows
  unfolding finish
  close_out-kept e r t done m = update-In (fault e.id) e.id _ r t done m

  pub close_all-kept :
      (es : List Entry) (r : Entry) (t : Table)
      → is_unfinished r ≡ false
      → In r t.rows
      → In r (close_all quote fault now es t).1.rows
  unfolding close_all
  close_all-kept [] r t done m = m
  close_all-kept (e ∷ es) r t done m =
      of_failure (close_out quote fault now e t).0
        (close_all-kept es r (close_out quote fault now e t).1 done (close_out-kept e r t done m))
    where
      kept : In r (close_out quote fault now e t).1.rows
      kept = close_out-kept e r t done m

      of_failure :
          (o : Option Error)
          → In r (close_all quote fault now es (close_out quote fault now e t).1).1.rows
          → In r
              (closed_or_failed e o
                (close_out quote fault now e t).1
                (close_all quote fault now es (close_out quote fault now e t).1)).1.rows
      of_failure none later = later
      of_failure (some f) later = kept

  -- The loop, one orphan in.
  module _ (e : Entry) (es : List Entry) (t : Table) (s : IsSound t) (d : Distinct (e ∷ es))
      (orphans : IsOrphans (e ∷ es) t) where
    abbrev behind : Table
    behind = sealed e.id (now e.id) State.failed (orphan_detail quote fault now e) t

    live : is_unfinished e ≡ true
    live = (orphans.0 e (inl refl)).1

    closes : fault e.id ≡ none → close_out quote fault now e t ≡ (none, behind)
    closes h = rw h (
        finish_written e (now e.id) State.failed (orphan_detail quote fault now e) t
          (affected_of_In e t.rows s.ids_distinct (orphans.0 e (inl refl)).0 live))

    closes_at :
        (f : Error)
        → fault e.id ≡ some (at_inspect f)
        → close_out quote fault now e t ≡ (none, behind)
    closes_at f h = rw h (
        finish_written_at f e (now e.id) State.failed (orphan_detail quote fault now e) t
          (affected_of_In e t.rows s.ids_distinct (orphans.0 e (inl refl)).0 live))

    behind-IsSound : IsSound behind
    behind-IsSound = record {
      ids_below =
          set_rows-Below e.id
            (finished_as (now e.id) State.failed (orphan_detail quote fault now e)) (λ x. refl)
            t.next_id t.rows s.ids_below;
      ids_distinct =
          set_rows-Distinct e.id
            (finished_as (now e.id) State.failed (orphan_detail quote fault now e)) (λ x. refl)
            t.rows s.ids_distinct;
    }

    behind-IsOrphans : IsOrphans es behind
    behind-IsOrphans = (there, back)
      where
        there : (r : Entry) → In r es → In r behind.rows × (is_unfinished r ≡ true)
        there r m =
            let (row, own) = orphans.0 r (inr m) in
            (set_rows_miss e.id _ r t.rows (miss e.id r (Absent-of_In e.id r es d.0 m)) row, own)

        back : (r : Entry) → In r behind.rows → is_unfinished r ≡ true → In r es
        back r m own =
            let (row, other) = set_rows_left e.id _ r t.rows (λ x. refl) own m in
            elim (orphans.1 r row own) [
              | inl same ↦
                  let matched : matches e.id r ≡ true =
                    ap (λ (x : Entry). matches e.id x) same ∙ hit e live in
                  absurd (ground (arith, other, matched))
              | inr rest ↦ rest
            ]

    extends :
        (o : Option Error) (t' : Table)
        → In (closed_out e) t'.rows
        → Closes es o t'
        → Closes (e ∷ es) o t'
    extends none t' own h = (
      λ r m. elim m [
        | inl same ↦ subst (λ (x : Entry). In (closed_out x) t'.rows) (sym same) own
        | inr rest ↦ h.0 r rest
      ],
      h.1,
    )
    extends (some f) t' own h = (
      h.0,
      λ r m. elim m [
        | inl same ↦ inr (subst (λ (x : Entry). In (closed_out x) t'.rows) (sym same) own)
        | inr rest ↦ h.1 r rest
      ],
    )

    abbrev rest : Option Error × Table
    rest = close_all quote fault now es behind

    written : In (closed_out e) behind.rows
    written = set_rows_hit _ e t.rows (orphans.0 e (inl refl)).0 live

    kept : In (closed_out e) rest.1.rows
    kept = close_all-kept es (closed_out e) behind refl written

    faulted : (g : Fault) → some g ≡ none → ⊥
    faulted g p = cc

    -- The orphan met a fault, or the loop goes on behind its receipt.
    close_one :
        (f : Option Fault)
        → fault e.id ≡ f
        → Closes es rest.0 rest.1
        → Closes
            (e ∷ es)
            (close_all quote fault now (e ∷ es) t).0
            (close_all quote fault now (e ∷ es) t).1
    unfolding close_all
    close_one none h later = rw (closes h) (extends rest.0 rest.1 kept later)
    close_one (some (at_inspect f)) h later = rw (closes_at f h) (extends rest.0 rest.1 kept later)
    close_one (some (at_exec f)) h later =
        let (same, (g, failed)) = finish_failed e f t h in
        rw (failed, same)
          ((e.id, λ n. absurd (faulted (at_exec f) (sym h ∙ n))), λ r m. inl (orphans.0 r m).0)
    close_one (some (behind_exec f)) h later =
        let (same, (g, failed)) = finish_failed_late e f t h in
        rw (failed, same)
          (
            (e.id, λ n. absurd (faulted (behind_exec f) (sym h ∙ n))),
            λ r m. elim m [
              | inl equal ↦
                  inr (subst (λ (x : Entry). In (closed_out x) behind.rows) (sym equal) written)
              | inr further ↦ inl (behind-IsOrphans.0 r further).0
            ],
          )

  pub close_all-Closes :
      (es : List Entry) (t : Table)
      → IsSound t
      → Distinct es
      → IsOrphans es t
      → Closes es (close_all quote fault now es t).0 (close_all quote fault now es t).1
  unfolding close_all
  close_all-Closes [] t s d orphans = (λ r m. absurd m, done)
    where
      done : (r : Entry) → In r t.rows → is_unfinished r ≡ false
      done r m = elim (Bool-cases (is_unfinished r)) [
        | inl own ↦ absurd (orphans.1 r m own)
        | inr over ↦ over
      ]
  close_all-Closes (e ∷ es) t s d orphans = close_one e es t s d orphans (fault e.id) refl (
      close_all-Closes es (behind e es t s d orphans) (behind-IsSound e es t s d orphans) d.1
        (behind-IsOrphans e es t s d orphans))
