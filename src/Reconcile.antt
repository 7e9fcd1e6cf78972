-- ===== src/Reconcile.antt =====
-- internal/reconcile: apply.go and render.go.
pub mod Probe
pub mod Units
pub mod Podman
use snowdeploy.Base.{ℕ, Text, lit, ◌++◌, Option, none, some, Error, wrap, Result, ok, err}
use snowdeploy.Platform.{Platform}
use snowdeploy.Manifest.Defs.{Manifest, Limits}
use snowdeploy.Manifest.Validate.{validate}
use snowdeploy.Manifest.Rendered.{validate_rendered}
use snowdeploy.Effect.{Call, Prog, ret, ◌>>=◌, ◌>>◌, perform}

pub data Phase : Type 0 where
  restarting probing : Phase

unfoldable pub unit_name : Text → Text
unit_name service = service ++ lit ".container"

-- The fields of Applier that are values; its Systemd is the environment.
pub record Applier : Type 0 where
  pub platform : Platform
  pub limits : Limits
  pub probe_interval : ℕ

abbrev failed_as : Text → Option Error → Option Error
failed_as prefix none = none
failed_as prefix (some e) = some (wrap (prefix ++ e.text) e)

module _ (a : Applier) (m : Manifest) (on_phase : Phase → Prog Unit) where
  unfoldable pub probe_unit : Prog (Option Error)
  probe_unit = do
    on_phase probing
    e ← perform (Call.probe m.health.url m.health.timeout a.probe_interval)
    ret (failed_as (m.name ++ lit " did not become healthy: ") e)

  unfoldable pub restart_unit : Prog (Option Error)
  restart_unit = do
    on_phase restarting
    e ← perform (Call.reload_and_restart m.name)
    elim e [
      | none ↦ probe_unit
      | some e ↦ ret (some (wrap (lit "restart " ++ m.name ++ lit ": " ++ e.text) e))
    ]

  unfoldable pub write_and_restart : Text → Prog (Option Error)
  write_and_restart unit = do
    e ← perform (Call.write_unit (unit_name m.name) unit)
    elim e [
      | none ↦ restart_unit
      | some e ↦ ret (some (wrap (lit "write unit for " ++ m.name ++ lit ": " ++ e.text) e))
    ]

  unfoldable pub check_rendered : Text → Option Error → Prog (Option Error)
  check_rendered unit none = write_and_restart unit
  check_rendered unit (some e) =
      ret (some (wrap (lit "rendered unit for " ++ m.name ++ lit " is unsafe: " ++ e.text) e))

  unfoldable pub after_render : Result Text → Prog (Option Error)
  after_render (err e) = ret (some (wrap (lit "render " ++ m.name ++ lit ": " ++ e.text) e))
  after_render (ok unit) = check_rendered unit (validate_rendered unit)

  unfoldable pub after_validate : Text → Option Error → Prog (Option Error)
  after_validate tmpl (some e) =
      ret (some (wrap (lit "manifest " ++ m.name ++ lit " is invalid: " ++ e.text) e))
  after_validate tmpl none = after_render (a.platform.render_template tmpl m)

unfoldable pub apply : Applier → Manifest → Text → (Phase → Prog Unit) → Prog (Option Error)
apply a m tmpl on_phase = after_validate a m on_phase tmpl (validate a.platform m a.limits)
