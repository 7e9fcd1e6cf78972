-- ===== src/Deploy/Digest.antt =====
-- internal/deploy/engine.go: setDigest and shortDigest, and the texts of a proposal.
use snowdeploy.Base.{
  Text, lit, has_prefix, drop_prefix, trim_prefix, count, is_empty, itoa, eqb, ltb, length, take,
  [], ◌∷◌, ◌++◌, Result, ok, err, errors_new, if◌then◌else◌,
}
use snowdeploy.Journal.Defs.{Action}

-- bytes.Replace(s, old, new, 1)
unfoldable pub replace_first : Text → Text → Text → Text
replace_first old new [] = if is_empty old then new else []
replace_first old new (c ∷ s) =
    let rest = replace_first old new s in
    if has_prefix (c ∷ s) old then new ++ drop_prefix (c ∷ s) old else c ∷ rest

unfoldable pub set_digest : Text → Text → Text → Result Text
set_digest raw old_digest new_digest =
    let n = count raw old_digest in
    if eqb n 1
    then ok (replace_first old_digest new_digest raw)
    else err (
        errors_new (
          lit "manifest contains the current digest "
          ++ itoa n
          ++ lit " times, expected exactly once"))

unfoldable pub short_digest : Text → Text
short_digest d =
    let trimmed = trim_prefix d (lit "sha256:") in
    if ltb 12 (length trimmed) then take 12 trimmed else trimmed

-- %s of an action
unfoldable pub action_text : Action → Text
action_text Action.deploy = lit "deploy"
action_text Action.rollback = lit "rollback"
action_text Action.converge = lit "converge"
action_text Action.auto_rollback = lit "auto-rollback"

abbrev verb : Action → Text
verb Action.rollback = lit "roll back"
verb _ = lit "deploy"

unfoldable pub pr_title : Action → Text → Text → Text
pr_title action service digest =
    verb action ++ lit " " ++ service ++ lit " to " ++ short_digest digest

unfoldable pub pr_body : Action → Text → Text → Text → Text
pr_body action service old_digest new_digest =
    lit "Authored by snowdeploy ("
    ++ action_text action
    ++ lit ").\n\n- service: `"
    ++ service
    ++ lit "`\n- from: `"
    ++ old_digest
    ++ lit "`\n- to: `"
    ++ new_digest
    ++ lit "`\n\nThis change touches only the service manifest. The host applies it "
    ++ lit "after this pull request merges."
