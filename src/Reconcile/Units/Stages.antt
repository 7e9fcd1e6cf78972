-- ===== src/Reconcile/Units/Stages.antt =====
-- The stages of a unit that is written, and the contract that WriteUnit keeps (internal/reconcile/systemd.go).
use snowdeploy.Base.{
  Text, lit, ◌≡◌, Bool, true, false, Option, none, some, Error, Result, ok, err, [], ◌∷◌,
}
use snowdeploy.Occurs.{Occurs}
use snowdeploy.Script.{Contract}
use snowdeploy.Gitops.Names.{join_path}
use snowdeploy.Reconcile.Units.{
  Query, mkdir_all, create_temp, write_string, sync, close, chmod, rename, remove, open_dir,
  sync_dir, close_dir, Reply, os,
}

-- The stages of the temporary file, and of the directory behind the rename.
pub data Stage : Type 0 where
  absent empty full synced_file closed_file private_file : Stage
  renamed_file durable : Stage

pub record Files : Type 0 where
  pub temporary : Option Text
  pub stage : Stage
  pub removed : Bool

abbrev pub untouched : Files
untouched = record { temporary = none; stage = absent; removed = true }

abbrev pub reached : Option Error → Stage → Stage → Stage
reached none next old = next
reached (some e) next old = old

abbrev pub close_from : Stage → Stage
close_from synced_file = closed_file
close_from s = s

abbrev pub made : Result Text → Files → Files
made (ok tmp) w = record { temporary = some tmp; stage = empty; removed = false }
made (err e) w = w

abbrev pub moves : Files → (q : Query) → Reply q → Files
moves w (create_temp dir pattern) r = made r w
moves w (write_string tmp content) r = record w { stage = reached r full w.stage }
moves w (sync tmp) r = record w { stage = reached r synced_file w.stage }
moves w (close tmp) r = record w { stage = reached r (close_from w.stage) w.stage }
moves w (chmod tmp mode) r = record w { stage = reached r private_file w.stage }
moves w (rename old new) r = record w { stage = reached r renamed_file w.stage }
moves w (remove tmp) r = record w { removed = true }
moves w (sync_dir dir) r = record w { stage = reached r durable w.stage }
moves w q r = w

module _ (unit_dir name content : Text) where
  -- The unit's own name changes in one step, a rename of a file that holds the whole content, was
  -- synced and closed, and is the user's alone (0o600, which is
  -- 384; the directory is made with 0o750, which is 488); all else happens to the temporary file.
  abbrev pub MayCall : Files → Query → Type 0
  MayCall w (mkdir_all dir mode) = (dir ≡ unit_dir) × (mode ≡ 488)
  MayCall w (create_temp dir pattern) = (dir ≡ unit_dir) × (w.temporary ≡ none)
  MayCall w (write_string tmp c) = (w.temporary ≡ some tmp) × (c ≡ content) × (w.stage ≡ empty)
  MayCall w (sync tmp) = (w.temporary ≡ some tmp) × (w.stage ≡ full)
  MayCall w (close tmp) = w.temporary ≡ some tmp
  MayCall w (chmod tmp mode) = (w.temporary ≡ some tmp) × (w.stage ≡ closed_file) × (mode ≡ 384)
  MayCall w (rename old new) =
      (w.temporary ≡ some old)
      × (new ≡ join_path (unit_dir ∷ name ∷ []))
      × (w.stage ≡ private_file)
      × ¬ (Occurs (lit "/") name)
      × ¬ (Occurs (lit "..") name)
  MayCall w (remove tmp) = w.temporary ≡ some tmp
  MayCall w (open_dir dir) = (dir ≡ unit_dir) × (w.stage ≡ renamed_file)
  MayCall w (sync_dir dir) = (dir ≡ unit_dir) × (w.stage ≡ renamed_file)
  MayCall w (close_dir dir) = dir ≡ unit_dir

  abbrev pub durably : Contract os
  durably = record { Watch = Files; Allowed = MayCall; after = moves }

-- With no error the rename is durable; the temporary file was removed on every path.
abbrev pub IsInstalled : Option Error → Files → Type 0
IsInstalled none w = (w.stage ≡ durable) × (w.removed ≡ true)
IsInstalled (some e) w = w.removed ≡ true
