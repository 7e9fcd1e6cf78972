-- ===== src/Deploy/Drift.antt =====
-- internal/deploy/engine.go: Drift. What the repository and the host answer are parameters.
pub mod Notes
use snowdeploy.Base.{
  Text, lit, ◌==◌, Bool, List, [], ◌∷◌, ◌++◌, Option, none, some, Error, wrap, Result, ok, err,
  if◌then◌else◌,
}
use snowdeploy.Dict.{Dict, put}
use snowdeploy.Manifest.Defs.{Manifest}

module _ (manifest : Text → Result Manifest) (running_image : Text → Result Text) where
  abbrev pub compare_running : Text → Result Text → Option Text
  compare_running pinned (err e) = some (lit "not running: " ++ e.text)
  compare_running pinned (ok running) =
      if running == pinned
      then none
      else some (lit "running " ++ running ++ lit ", manifest pins " ++ pinned)

  abbrev pub compare_manifest : Text → Result Manifest → Option Text
  compare_manifest service (err e) = some (lit "manifest unreadable: " ++ e.text)
  compare_manifest service (ok m) = compare_running m.image.digest (running_image service)

  abbrev pub noted : Text → Option Text → Dict Text → Dict Text
  noted service none d = d
  noted service (some note) d = put service note d

  -- The loop over the services.
  unfoldable pub drift_of : List Text → Dict Text → Dict Text
  drift_of [] d = d
  drift_of (service ∷ services) d =
      drift_of services (noted service (compare_manifest service (manifest service)) d)

  abbrev pub listed_drift : Result (List Text) → Result (Dict Text)
  listed_drift (err e) = err e
  listed_drift (ok services) = ok (drift_of services [])

  unfoldable pub drift : Option Error → Result (List Text) → Result (Dict Text)
  drift (some e) services = err (wrap (lit "sync configuration repository: " ++ e.text) e)
  drift none services = listed_drift services
