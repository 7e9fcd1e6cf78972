-- ===== src/Deploy/Keeps/Apply.antt =====
-- Applying a manifest keeps to the protocol of a run, and where it succeeds the host has passed its
-- probe on a unit that was rendered from that manifest and passed both gates.
use snowdeploy.Base.{
  Text, lit, ◌++◌, ap, ◌≡◌, refl, true, false, Option, none, some, Error, Result, ok, err,
}
use snowdeploy.Manifest.Defs.{Manifest}
use snowdeploy.Manifest.Validate.{validate}
use snowdeploy.Manifest.Rendered.{validate_rendered}
use snowdeploy.Reconcile.{
  Phase, restarting, probing, apply, after_validate, after_render, check_rendered,
  write_and_restart, restart_unit, probe_unit, unit_name,
}
use snowdeploy.Journal.Defs.{State}
use snowdeploy.Effect.{RunRequest, Prog}
use snowdeploy.Effect.Logic.{Wp, Wp-bind}
use snowdeploy.Deploy.Engine.{Options}
use snowdeploy.Deploy.Protocol.{probed_at, idle, Watch, Probed, IsUnitOf}
use snowdeploy.Deploy.Keeps.Plumbing.{protocol}

-- The facts of a running deploy outside the merge queue, whatever the host is known to run.
abbrev pub Live : Text → Watch → Type 0
Live d g =
    (g.receipt ≡ false)
    × (g.service_held ≡ true)
    × (g.merge_held ≡ false)
    × (g.stand ≡ idle)
    × (g.target ≡ d)

-- After an application of a manifest that pins `pin`.
abbrev pub Applied : Options → Text → Text → Option Error → Watch → Type 0
Applied o d pin none g = Live d g × Probed o pin g.probed
Applied o d pin (some e) g = Live d g

-- A report of a phase changes at most the newest journal update.
abbrev pub Reports : Options → RunRequest → (Phase → Prog Unit) → Type 1
Reports o req on_phase =
    (ph : Phase) (Q : Unit → Watch → Type 0) (g : Watch)
    → g.receipt ≡ false
    → ((e : Option (State × Text)) → Q tt (record g { entry = e }))
    → Wp (protocol o req) (on_phase ph) Q g

module _ (o : Options) (req : RunRequest) (d : Text) (m : Manifest) (on_phase : Phase → Prog Unit)
    (reports : Reports o req on_phase) where
  abbrev Goal : Option Error → Watch → Type 0
  Goal = Applied o d m.image.digest

  probe_unit-Wp :
      (u : Text) (g : Watch)
      → Live d g
      → g.live ≡ some (m.name ++ lit ".container", u)
      → IsUnitOf o m.image.digest (m.name ++ lit ".container", u, m.health.url)
      → Wp (protocol o req) (probe_unit o.applier m on_phase) Goal g
  unfolding probe_unit
  probe_unit-Wp u g live written good = Wp-bind (protocol o req) (on_phase probing) _ Goal g (
      reports probing _ g live.0 (λ e. (
        live.0,
        elim [
          | none ↦ (
            live,
            (
              (m.name ++ lit ".container", u, m.health.url),
              ap (λ (w : Option (Text × Text)). probed_at m.health.url w) written,
              good,
            ),
          )
          | some f ↦ live
        ],
      )))

  write_and_restart-Wp :
      (u : Text) (g : Watch)
      → Live d g
      → IsUnitOf o m.image.digest (m.name ++ lit ".container", u, m.health.url)
      → Wp (protocol o req) (write_and_restart o.applier m on_phase u) Goal g
  unfolding write_and_restart restart_unit unit_name
  write_and_restart-Wp u g live good = (
    (live.1, live.2, live.0, (m.image.digest, m.health.url, good)),
    elim [
      | some e ↦ live
      | none ↦ Wp-bind (protocol o req) (on_phase restarting) _ Goal _ (
          reports restarting _ _ live.0 (λ e. (
            (live.1, live.2, live.0, (u, refl)),
            elim [ none ↦ probe_unit-Wp u _ live refl good | some f ↦ live ],
          )))
    ],
  )

  check_rendered-Wp :
      (tmpl u : Text) (g : Watch) (r : Option Error)
      → validate_rendered u ≡ r
      → o.applier.platform.render_template tmpl m ≡ ok u
      → validate o.applier.platform m o.applier.limits ≡ none
      → Live d g
      → Wp (protocol o req) (check_rendered o.applier m on_phase u r) Goal g
  unfolding check_rendered
  check_rendered-Wp tmpl u g none safe rendered valid live =
      write_and_restart-Wp u g live (m, tmpl, rendered, valid, safe, refl, refl, refl)
  check_rendered-Wp tmpl u g (some e) safe rendered valid live = live

  after_render-Wp :
      (tmpl : Text) (g : Watch) (r : Result Text)
      → o.applier.platform.render_template tmpl m ≡ r
      → validate o.applier.platform m o.applier.limits ≡ none
      → Live d g
      → Wp (protocol o req) (after_render o.applier m on_phase r) Goal g
  unfolding after_render
  after_render-Wp tmpl g (ok u) rendered valid live =
      check_rendered-Wp tmpl u g (validate_rendered u) refl rendered valid live
  after_render-Wp tmpl g (err e) rendered valid live = live

  after_validate-Wp :
      (tmpl : Text) (g : Watch) (r : Option Error)
      → validate o.applier.platform m o.applier.limits ≡ r
      → Live d g
      → Wp (protocol o req) (after_validate o.applier m on_phase tmpl r) Goal g
  unfolding after_validate
  after_validate-Wp tmpl g none valid live = after_render-Wp tmpl g _ refl valid live
  after_validate-Wp tmpl g (some e) valid live = live

  pub apply-Wp :
      (tmpl : Text) (g : Watch)
      → Live d g
      → Wp (protocol o req) (apply o.applier m tmpl on_phase) (Applied o d m.image.digest) g
  unfolding apply
  apply-Wp tmpl g live = after_validate-Wp tmpl g _ refl live
