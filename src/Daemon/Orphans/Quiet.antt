-- ===== src/Daemon/Orphans/Quiet.antt =====
-- What a browser is shown behind a start of the daemon (cmd/snowdeployd/main.go,
-- internal/api/sse.go).
use snowdeploy.Base.{
  ℕ, Text, ◌≡◌, refl, In, inl, false, List, [], ◌∷◌, Option, none, some, Error, Result, ok, err,
  arith,
}
use snowdeploy.Effect.{Event}
use snowdeploy.Journal.Defs.{Entry}
use snowdeploy.Journal.Table.{Fault, Table, is_unfinished, finish}
use snowdeploy.Journal.Queries.{unfinished}
use snowdeploy.Journal.Ids.{IsSound, update-IsSound}
use snowdeploy.Api.Reads.{Sources}
use snowdeploy.Api.Snapshots.{snapshot_events}
use snowdeploy.Api.Snapshots.InFlight.{over, snapshot_events-Shows}
use snowdeploy.Daemon.Orphans.{
  closed_or_failed, close_out, close_all, listed, fail_orphaned_deploys,
}
use snowdeploy.Daemon.Orphans.Closed.{Settles, fail_orphaned_deploys-Restarts}

module _ (quote : Text → Text) (fault : ℕ → Option Fault) (now : ℕ → ℕ) where
  close_out-IsSound :
      (e : Entry) (t : Table) → IsSound t → IsSound (close_out quote fault now e t).1
  unfolding finish
  close_out-IsSound e t s = update-IsSound e.id _ (λ x. refl) (fault e.id) t s

  close_all-IsSound :
      (es : List Entry) (t : Table) → IsSound t → IsSound (close_all quote fault now es t).1
  unfolding close_all
  close_all-IsSound [] t s = s
  close_all-IsSound (e ∷ es) t s =
      of_failure (close_out quote fault now e t).0 (close_out-IsSound e t s)
        (close_all-IsSound es (close_out quote fault now e t).1 (close_out-IsSound e t s))
    where
      of_failure :
          (o : Option Error)
          → IsSound (close_out quote fault now e t).1
          → IsSound (close_all quote fault now es (close_out quote fault now e t).1).1
          → IsSound
              (closed_or_failed e o
                (close_out quote fault now e t).1
                (close_all quote fault now es (close_out quote fault now e t).1)).1
      of_failure none now_ later = later
      of_failure (some f) now_ later = now_

  fail_orphaned_deploys-IsSound :
      (list_fault : Option Error) (t : Table)
      → IsSound t
      → IsSound (fail_orphaned_deploys quote fault now list_fault t).1
  unfolding fail_orphaned_deploys
  fail_orphaned_deploys-IsSound list_fault t s = of_list (unfinished list_fault t)
    where
      of_list : (o : Result (List Entry)) → IsSound (listed quote fault now o t).1
      of_list (err e) = s
      of_list (ok es) = close_all-IsSound es t s

  none_left :
      (list_fault : Option Error) (t : Table) (o : Option Error) (t' : Table)
      → o ≡ none
      → Settles quote fault now list_fault t o t'
      → (r : Entry) → In r t'.rows
      → is_unfinished r ≡ false
  none_left list_fault t none t' h s = s.1
  none_left list_fault t (some e) t' h s = absurd (faulted h)
    where
      faulted : some e ≡ none → ⊥
      faulted p = cc

no_items : {A : Type 0} (xs : List A) → ((x : A) → In x xs → ⊥) → xs ≡ []
no_items [] h = refl
no_items (x ∷ xs) h = absurd (h x (inl refl))

-- Behind a start of the daemon that succeeds on a sound journal, a new connection is sent no event:
-- no service is shown as being deployed, whatever was in flight before and whatever the services are.
pub fail_orphaned_deploys-quiet :
    (quote : Text → Text) (fault : ℕ → Option Fault) (now : ℕ → ℕ) (list_fault : Option Error)
    (t : Table) (s : Sources)
    → IsSound t
    → (fail_orphaned_deploys quote fault now list_fault t).0 ≡ none
    → snapshot_events (over (fail_orphaned_deploys quote fault now list_fault t).1 s) ≡ []
fail_orphaned_deploys-quiet quote fault now list_fault t s sound started = no_items _ none_shown
  where
    none_shown :
        (ev : Event)
        → In ev (snapshot_events (over (fail_orphaned_deploys quote fault now list_fault t).1 s))
        → ⊥
    none_shown ev m =
        let after = (fail_orphaned_deploys quote fault now list_fault t).1 in
        let (name, e, there, row, live, same) =
          (snapshot_events-Shows s after
              (fail_orphaned_deploys-IsSound quote fault now list_fault t sound) ev).0
            m in
        let over_ =
          none_left quote fault now list_fault t _ after started
            (fail_orphaned_deploys-Restarts quote fault now list_fault t sound).1 e row.0 in
        absurd (ground (arith, live, over_))
