-- ===== src/Reconcile/Units/Durable.antt =====
-- How WriteUnit touches the unit directory (internal/reconcile/systemd.go).
use snowdeploy.Base.{
  Text, lit, ◌≡◌, refl, contains, Bool, true, false, ◌||◌, ◌++◌, Option, none, some, Error, Result,
  ok, err, errors_new, if◌then◌else◌,
}
use snowdeploy.Occurs.{Occurs, Occurs-contains}
use snowdeploy.Script.{ret, ◌>>=◌, ◌>>◌, query, Contract, Keeps, Keeps-then}
use snowdeploy.Reconcile.Units.{
  mkdir_all, remove, sync_dir, os, dir_synced, dir_opened, sync_directory, renamed, permitted,
  closed, synced, written, install, created, directory_made, write_unit,
}
use snowdeploy.Reconcile.Units.Stages.{
  empty, full, synced_file, closed_file, private_file, renamed_file, durable, Stage, Files,
  untouched, reached, made, moves, durably, IsInstalled,
}

-- Before the deferred removal.
abbrev IsEnded : Text → Option Error → Files → Type 0
IsEnded tmp none w = (w.temporary ≡ some tmp) × (w.stage ≡ durable)
IsEnded tmp (some e) w = w.temporary ≡ some tmp

module _ (quote : Text → Text) (unit_dir name content tmp : Text) where
  abbrev C : Contract os
  C = durably unit_dir name content

  -- The temporary file is at a stage.
  abbrev IsAt : Stage → Files → Type 0
  IsAt s w = (w.temporary ≡ some tmp) × (w.stage ≡ s)

  sync_directory-Keeps :
      (w : Files) → IsAt renamed_file w → Keeps C (sync_directory quote unit_dir) (IsEnded tmp) w
  unfolding sync_directory
  sync_directory-Keeps w at = ((refl, at.1), λ o. of_open o)
    where
      of_sync :
          (o : Option Error)
          → IsEnded tmp (dir_synced quote unit_dir o) (moves w (sync_dir unit_dir) o)
      of_sync none = (at.0, refl)
      of_sync (some e) = at.0

      of_open : (o : Option Error) → Keeps C (dir_opened quote unit_dir o) (IsEnded tmp) w
      of_open (some e) = at.0
      of_open none = ((refl, at.1), λ o. (refl, λ p. of_sync o))

  renamed-Keeps :
      (o : Option Error) (w : Files)
      → w.temporary ≡ some tmp
      → Keeps C
          (renamed quote unit_dir name content tmp o)
          (IsEnded tmp)
          (record w { stage = reached o renamed_file w.stage })
  renamed-Keeps (some e) w t = t
  renamed-Keeps none w t = sync_directory-Keeps (record w { stage = renamed_file }) (t, refl)

  module _ (no_slash : ¬ (Occurs (lit "/") name)) (no_dots : ¬ (Occurs (lit "..") name)) where
    permitted-Keeps :
        (o : Option Error) (w : Files)
        → w.temporary ≡ some tmp
        → Keeps C
            (permitted quote unit_dir name content tmp o)
            (IsEnded tmp)
            (record w { stage = reached o private_file w.stage })
    permitted-Keeps (some e) w t = t
    permitted-Keeps none w t = (
      (t, refl, refl, no_slash, no_dots),
      λ o. renamed-Keeps o (record w { stage = private_file }) t,
    )

    closed-Keeps :
        (o : Option Error) (w : Files)
        → IsAt synced_file w
        → Keeps C
            (closed quote unit_dir name content tmp o)
            (IsEnded tmp)
            (record w { stage = reached o closed_file w.stage })
    closed-Keeps (some e) w at = at.0
    closed-Keeps none w at =
        ((at.0, refl, refl), λ o. permitted-Keeps o (record w { stage = closed_file }) at.0)

    synced-Keeps :
        (o : Option Error) (w : Files)
        → w.temporary ≡ some tmp
        → Keeps C
            (synced quote unit_dir name content tmp o)
            (IsEnded tmp)
            (record w { stage = reached o synced_file w.stage })
    synced-Keeps (some e) w t = (t, λ o. t)
    synced-Keeps none w t = (t, λ o. closed-Keeps o (record w { stage = synced_file }) (t, refl))

    written-Keeps :
        (o : Option Error) (w : Files)
        → w.temporary ≡ some tmp
        → Keeps C
            (written quote unit_dir name content tmp o)
            (IsEnded tmp)
            (record w { stage = reached o full w.stage })
    written-Keeps (some e) w t = (t, λ o. t)
    written-Keeps none w t = ((t, refl), λ o. synced-Keeps o (record w { stage = full }) t)

    install-Keeps :
        Keeps C
          (install quote unit_dir name content tmp)
          IsInstalled
          (record { temporary = some tmp; stage = empty; removed = false })
    unfolding install
    install-Keeps = (
      (refl, refl, refl),
      λ o.
          Keeps-then C (written quote unit_dir name content tmp o)
            (λ outcome. query (remove tmp) >> ret outcome) (IsEnded tmp) IsInstalled _
            (written-Keeps o (record { temporary = some tmp; stage = empty; removed = false }) refl)
            removal,
    )
      where
        removal :
            (o : Option Error) (w : Files)
            → IsEnded tmp o w
            → Keeps C (query (remove tmp) >> ret o) IsInstalled w
        removal none w h = (h.0, λ p. (h.1, refl))
        removal (some e) w h = (h, λ p. refl)

module _ (quote : Text → Text) (unit_dir name content : Text) where
  -- Whatever the file system answers: the unit's own name is touched by one rename only, of a
  -- temporary file in the same directory that holds the whole content, was synced and closed, and was
  -- made the user's alone (its mode is set to 0o600, that of the directory to 0o750), and only if the name is one path element; without an error the rename was made
  -- durable; and the temporary file is removed on every path.
  pub write_unit-Keeps :
      Keeps
        (durably unit_dir name content)
        (write_unit quote unit_dir name content)
        IsInstalled
        untouched
  unfolding write_unit
  write_unit-Keeps = guarded (contains name (lit "/")) (contains name (lit "..")) (λ h. h) (λ h. h)
    where
      absent_in : {p : Text} → contains name p ≡ false → ¬ (Occurs p name)
      absent_in {p} h o = cc (Occurs-contains p name o)

      of_temp :
          contains name (lit "/") ≡ false
          → contains name (lit "..") ≡ false
          → (r : Result Text)
          → Keeps
              (durably unit_dir name content)
              (created quote unit_dir name content r)
              IsInstalled
              (made r untouched)
      of_temp h k (err e) = refl
      of_temp h k (ok tmp) =
          install-Keeps quote unit_dir name content tmp (absent_in h) (absent_in k)

      of_directory :
          contains name (lit "/") ≡ false
          → contains name (lit "..") ≡ false
          → (o : Option Error)
          → Keeps
              (durably unit_dir name content)
              (directory_made quote unit_dir name content o)
              IsInstalled
              untouched
      of_directory h k (some e) = refl
      of_directory h k none = ((refl, refl), λ r. of_temp h k r)

      guarded :
          (slash dots : Bool)
          → (slash ≡ false → contains name (lit "/") ≡ false)
          → (dots ≡ false → contains name (lit "..") ≡ false)
          → Keeps
              (durably unit_dir name content)
              (if slash || dots
                then ret (
                    some (
                      errors_new
                        (lit "unit name " ++ quote name ++ lit " is not a plain file name")))
                else (do
                  e ← query (mkdir_all unit_dir 488)
                  directory_made quote unit_dir name content e))
              IsInstalled
              untouched
      guarded true dots h k = refl
      guarded false true h k = refl
      guarded false false h k = ((refl, refl), λ o. of_directory (h refl) (k refl) o)
