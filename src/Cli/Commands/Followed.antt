-- ===== src/Cli/Commands/Followed.antt =====
-- When a followed command exits with 0 (cmd/snowdeploy/main.go).
use snowdeploy.Base.{Text, ◌≡◌, ◌≢◌, In, List, [], Option, Result, ok, err}
use snowdeploy.Script.{Contract}
use snowdeploy.Cli.Client.{http, Response, Client, ServiceStatus, Codec}
use snowdeploy.Cli.Follow.{StreamEvent}
use snowdeploy.Cli.Commands.Wire.{Wire, fresh, watching, Lists, IsTarget, following}

module _ (x : Codec) (c : Client) (action service digest : Text) where
  abbrev C : Contract http
  C = following x c action service digest

  abbrev Opens : Option (Result Response) → Result (List Text) → Wire → Type 0
  Opens k (err e) v = v ≡ fresh k
  Opens k (ok lines) v = v ≡ watching k lines

  -- The digest that was found, by what was read.
  abbrev Targets : Result Text → Wire → Type 0
  Targets (err e) v = (k : Option (Result Response)) × (v ≡ fresh k)
  Targets (ok target) v =
      (k : Option (Result Response)) × (v ≡ fresh k) × IsTarget x c action service digest k target

  module _ (decode_event : Text → Option StreamEvent) where
    -- The rows that were decoded.
    abbrev Rows : Result (List ServiceStatus) → Wire → Type 0
    Rows (err e) v = (k : Option (Result Response)) × (v ≡ fresh k)
    Rows (ok rows) v =
        (k : Option (Result Response)) × (v ≡ fresh k) × Lists x c action service digest k rows

    -- The latest digest in a row of the service.
    abbrev Latest : List ServiceStatus → Result Text → Type 0
    Latest rows (err e) = Unit
    Latest rows (ok target) =
        (row : ServiceStatus) × In row rows
        × (row.name ≡ service)
        × (row.latest_available ≡ target)
        × (target ≢ [])
