-- ===== src/Reconcile/Podman.antt =====
-- ReloadAndRestart, RunningImage and ContainerNames of internal/reconcile/systemd.go. A command is
-- answered with its output, or with the error of run or output.
pub mod Found
use snowdeploy.Base.{
  Text, lit, is_empty, trim_space, join, Bool, true, false, List, [], ◌∷◌, ◌++◌, Option, none, some,
  Error, errors_new, wrap, Result, ok, err, if◌then◌else◌,
}

unfoldable pub container_names : Text → List Text
container_names service = service ∷ (lit "systemd-" ++ service) ∷ []

-- What a command that failed on its own says on its standard error, if it was run at all.
pub record CommandError : Type 0 where
  pub error : Error
  pub stderr : Option Text

abbrev command_line : List Text → Text
command_line args = join (lit " ") args

abbrev explained : List Text → Error → Option Text → Error
explained args e (some stderr) =
    wrap (command_line args ++ lit ": " ++ e.text ++ lit ": " ++ trim_space stderr) e
explained args e none = wrap (command_line args ++ lit ": " ++ e.text) e

-- `exec` is what a command answers.
module _ (exec : List Text → Text × Option CommandError) where
  abbrev output_of : List Text → Text × Option CommandError → Result Text
  output_of args (out, none) = ok out
  output_of args (out, some e) = err (explained args e.error e.stderr)

  unfoldable pub output : List Text → Result Text
  output args = output_of args (exec args)

  abbrev error_of : Result Text → Option Error
  error_of (ok out) = none
  error_of (err e) = some e

  unfoldable pub run : List Text → Option Error
  unfolding output
  run args = error_of (output args)

  abbrev restart_reloaded : Text → Option Error → Option Error
  restart_reloaded service (some e) = some e
  restart_reloaded service none =
      run (lit "systemctl" ∷ lit "--user" ∷ lit "restart" ∷ (service ++ lit ".service") ∷ [])

  unfoldable pub reload_and_restart : Text → Option Error
  unfolding run
  reload_and_restart service =
      restart_reloaded service (run (lit "systemctl" ∷ lit "--user" ∷ lit "daemon-reload" ∷ []))

  abbrev pub inspect : Text → List Text
  inspect name = lit "podman" ∷ lit "inspect" ∷ lit "--format" ∷ lit "{{.ImageDigest}}" ∷ name ∷ []

  abbrev pub no_digest : Text → Error
  no_digest name = errors_new (lit "podman reported no image digest for container " ++ name)

  -- The digest that an answer holds, or the error to remember.
  abbrev pub digest_of : Text → Result Text → Result Text
  digest_of name (err e) = err e
  digest_of name (ok out) =
      if is_empty (trim_space out) then err (no_digest name) else ok (trim_space out)

  abbrev pub not_found : Text → Error → Error
  not_found service last =
      wrap
        (lit "no container found for "
          ++ service
          ++ lit " (tried "
          ++ join (lit ", ") (container_names service)
          ++ lit "): "
          ++ last.text)
        last

  -- The loop over the names, with the last error.
  unfoldable pub first_digest : Text → Error → List Text → Result Text
  unfolding output
  first_digest service last [] = err (not_found service last)
  first_digest service last (name ∷ names) = elim (digest_of name (output (inspect name))) [
    | ok digest ↦ ok digest
    | err e ↦ first_digest service e names
  ]

  -- There are two names, so the error before the first of them is never seen.
  unfoldable pub running_image : Text → Result Text
  unfolding first_digest container_names
  running_image service = first_digest service (errors_new []) (container_names service)
