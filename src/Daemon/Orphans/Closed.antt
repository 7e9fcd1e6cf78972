-- ===== src/Daemon/Orphans/Closed.antt =====
-- What the daemon's start does to the journal (cmd/snowdeployd/main.go).
use snowdeploy.Base.{
  ℕ, Text, ◌≡◌, ◌≢◌, In, ◌⊎◌, inl, inr, true, false, List, Option, none, some, Error, filter,
}
use snowdeploy.Journal.Defs.{Entry}
use snowdeploy.Journal.Table.{Fault, Table, is_unfinished}
use snowdeploy.Journal.Queries.{is_older, order_by, unfinished}
use snowdeploy.Journal.Order.{order_by-In, In-filter}
use snowdeploy.Journal.Ids.{IsSound, Distinct}
use snowdeploy.Journal.Closing.{Distinct-filter, Distinct-order_by}
use snowdeploy.Daemon.Orphans.{fail_orphaned_deploys}
use snowdeploy.Daemon.Orphans.Loop.{closed_out, IsOrphans, Closes, close_all-kept, close_all-Closes}

module _ (quote : Text → Text) (fault : ℕ → Option Fault) (now : ℕ → ℕ) where
  -- What becomes of the rows that were in flight: all of them are closed and no row is left in
  -- flight, or the driver failed, and each is as it was or closed.
  abbrev pub Settles : Option Error → Table → Option Error → Table → Type 0
  Settles list_fault t none t' =
      ((r : Entry)
        → In r t.rows
        → is_unfinished r ≡ true
        → In (closed_out quote fault now r) t'.rows)
      × ((r : Entry) → In r t'.rows → is_unfinished r ≡ false)
  Settles list_fault t (some e) t' =
      ((list_fault ≢ none) ⊎ ((id : ℕ) × (fault id ≢ none)))
      × ((r : Entry)
          → In r t.rows
          → is_unfinished r ≡ true
          → In r t'.rows ⊎ In (closed_out quote fault now r) t'.rows)

  abbrev pub Restarts : Option Error → Table → Option Error → Table → Type 0
  Restarts list_fault t e t' =
      ((r : Entry) → In r t.rows → is_unfinished r ≡ false → In r t'.rows)
      × Settles list_fault t e t'

  settled :
      (es : List Entry) (t : Table) (e : Option Error) (t' : Table)
      → IsOrphans quote fault now es t
      → Closes quote fault now es e t'
      → Settles none t e t'
  settled es t none t' orphans c = (λ r m own. c.0 r (orphans.1 r m own), c.1)
  settled es t (some e) t' orphans c = (inr c.0, λ r m own. c.1 r (orphans.1 r m own))

unfinished_rows : Table → List Entry
unfinished_rows t = order_by is_older (filter is_unfinished t.rows)

-- From a sound journal, the start of the daemon keeps every receipt, and closes every row that an
-- earlier process left in flight as failed, after which no row is in flight; it fails only if the
-- driver failed, and then each row that was in flight is as it was or closed.
pub fail_orphaned_deploys-Restarts :
    (quote : Text → Text) (fault : ℕ → Option Fault) (now : ℕ → ℕ) (list_fault : Option Error)
    (t : Table)
    → IsSound t
    → Restarts quote fault now list_fault t
        (fail_orphaned_deploys quote fault now list_fault t).0
        (fail_orphaned_deploys quote fault now list_fault t).1
unfolding fail_orphaned_deploys unfinished unfinished_rows
fail_orphaned_deploys-Restarts quote fault now (some f) t s =
    (λ r m done. m, (inl (λ n. absurd (faulted n)), λ r m own. inl m))
  where
    faulted : some f ≡ none → ⊥
    faulted p = cc
fail_orphaned_deploys-Restarts quote fault now none t s = (
  λ r m done. close_all-kept quote fault now (unfinished_rows t) r t done m,
  settled quote fault now (unfinished_rows t) t _ _ orphans
      (close_all-Closes quote fault now (unfinished_rows t) t s distinct orphans),
)
  where
    orphans : IsOrphans quote fault now (unfinished_rows t) t
    orphans = (
      λ r m. (In-filter is_unfinished r t.rows).0 ((order_by-In is_older r _).0 m),
      λ r m own. (order_by-In is_older r _).1 ((In-filter is_unfinished r t.rows).1 (m, own)),
    )

    distinct : Distinct (unfinished_rows t)
    distinct = Distinct-order_by is_older _ (Distinct-filter is_unfinished t.rows s.ids_distinct)
