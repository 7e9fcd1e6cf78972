-- ===== src/Reconcile/Units.antt =====
-- WriteUnit of internal/reconcile/systemd.go, with syncDir, as a script of the calls of package os
-- on a directory.
pub mod Stages
pub mod Durable
use snowdeploy.Base.{
  ℕ, Text, lit, contains, Bool, true, false, ◌||◌, ◌++◌, Option, none, some, Error, errors_new,
  wrap, Result, ok, err, if◌then◌else◌, List, [], ◌∷◌,
}
use snowdeploy.Script.{Language, Script, ret, ◌>>=◌, ◌>>◌, query}
use snowdeploy.Gitops.Names.{join_path}

pub data Query : Type 0 where
  -- os.MkdirAll, with a mode; os.CreateTemp of a directory and a pattern, which answers the file's name
  mkdir_all : Text → ℕ → Query
  create_temp : Text → Text → Query
  -- the methods of the temporary file: WriteString, Sync, Close
  write_string : Text → Text → Query
  sync : Text → Query
  close : Text → Query
  -- os.Chmod to a mode, os.Rename, os.Remove
  chmod : Text → ℕ → Query
  rename : Text → Text → Query
  remove : Text → Query
  -- os.Open of a directory, its Sync and its Close
  open_dir : Text → Query
  sync_dir : Text → Query
  close_dir : Text → Query

abbrev pub Reply : Query → Type 0
Reply (create_temp dir pattern) = Result Text
Reply q = Option Error

abbrev pub os : Language
os = record { Query = Query; Reply = Reply }

abbrev pub failed : Text → Error → Error
failed prefix e = wrap (prefix ++ lit ": " ++ e.text) e

module _ (quote : Text → Text) (unit_dir : Text) where
  abbrev pub dir_synced : Option Error → Option Error
  dir_synced none = none
  dir_synced (some e) = some (failed (lit "sync unit directory") e)

  abbrev pub dir_opened : Option Error → Script os (Option Error)
  dir_opened (some e) = ret (some (failed (lit "open unit directory") e))
  dir_opened none = do e ← query (sync_dir unit_dir); query (close_dir unit_dir); ret (dir_synced e)

  -- syncDir
  unfoldable pub sync_directory : Script os (Option Error)
  sync_directory = do e ← query (open_dir unit_dir); dir_opened e

  module _ (name content tmp : Text) where
    abbrev pub renamed : Option Error → Script os (Option Error)
    renamed (some e) = ret (some (failed (lit "install unit") e))
    renamed none = sync_directory

    abbrev pub permitted : Option Error → Script os (Option Error)
    permitted (some e) = ret (some (failed (lit "chmod unit") e))
    permitted none = do e ← query (rename tmp (join_path (unit_dir ∷ name ∷ []))); renamed e

    -- The mode is 0o600.
    abbrev pub closed : Option Error → Script os (Option Error)
    closed (some e) = ret (some (failed (lit "close unit") e))
    closed none = do e ← query (chmod tmp 384); permitted e

    abbrev pub synced : Option Error → Script os (Option Error)
    synced (some e) = do query (close tmp); ret (some (failed (lit "sync unit") e))
    synced none = do e ← query (close tmp); closed e

    abbrev pub written : Option Error → Script os (Option Error)
    written (some e) = do query (close tmp); ret (some (failed (lit "write unit") e))
    written none = do e ← query (sync tmp); synced e

    -- The body behind the temporary file, and the deferred removal of it.
    unfoldable pub install : Script os (Option Error)
    unfolding sync_directory join_path
    install = do
      e ← query (write_string tmp content)
      outcome ← written e
      query (remove tmp)
      ret outcome

  module _ (name content : Text) where
    abbrev pub created : Result Text → Script os (Option Error)
    created (err e) = ret (some (failed (lit "create temporary unit") e))
    created (ok tmp) = install name content tmp

    abbrev pub directory_made : Option Error → Script os (Option Error)
    directory_made (some e) = ret (some (failed (lit "create unit directory") e))
    directory_made none = do
      tmp ← query (create_temp unit_dir (lit "." ++ name ++ lit ".*"))
      created tmp

    -- The mode of the directory is 0o750.
    unfoldable pub write_unit : Script os (Option Error)
    unfolding install
    write_unit =
        if contains name (lit "/") || contains name (lit "..")
        then ret
            (some (errors_new (lit "unit name " ++ quote name ++ lit " is not a plain file name")))
        else (do e ← query (mkdir_all unit_dir 488); directory_made e)
