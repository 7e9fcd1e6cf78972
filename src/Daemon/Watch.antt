-- ===== src/Daemon/Watch.antt =====
-- What the daemon watches: repositories and watchDrift of cmd/snowdeployd/main.go, with SetDrift of
-- internal/api/api.go. The repository and the host are parameters.
pub mod Gauges
use snowdeploy.Base.{Text, List, [], ◌∷◌, Result, ok, err, Option, none, some, Error}
use snowdeploy.Dict.{Dict}
use snowdeploy.Manifest.Defs.{Manifest}
use snowdeploy.Deploy.Drift.{drift}
use snowdeploy.Api.Metrics.{Metrics, set_drift}

abbrev pub known_of : Result (List Text) → List Text
known_of (err e) = []
known_of (ok names) = names

module _ (services : Result (List Text)) (manifest : Text → Result Manifest) where
  abbrev pub with_repository : Result Manifest → List Text → List Text
  with_repository (err e) repositories = repositories
  with_repository (ok m) repositories = m.image.repository ∷ repositories

  -- The loop over the services.
  abbrev pub repositories_of : List Text → List Text
  repositories_of [] = []
  repositories_of (service ∷ rest) = with_repository (manifest service) (repositories_of rest)

  abbrev pub repositories_listed : Result (List Text) → List Text
  repositories_listed (err e) = []
  repositories_listed (ok names) = repositories_of names

  -- The image repositories that the watcher polls.
  unfoldable pub repositories : List Text
  repositories = repositories_listed services

  -- Server.SetDrift, which lists the services again: that second listing is `known`.
  unfoldable pub republish : Result (List Text) → Dict Text → Metrics → Metrics
  unfolding set_drift
  republish known drifting m = set_drift drifting (known_of known) m

  abbrev pub drift_checked : Result (List Text) → Result (Dict Text) → Metrics → Metrics
  drift_checked known (err e) m = m
  drift_checked known (ok drifting) m = republish known drifting m

  -- `check` of watchDrift, where the sync of Drift answered `failure`, and SetDrift listed `known`.
  unfoldable pub check_drift :
      (Text → Result Text) → Option Error → Result (List Text) → Metrics → Metrics
  unfolding republish drift
  check_drift running_image failure known m =
      drift_checked known (drift manifest running_image failure services) m
