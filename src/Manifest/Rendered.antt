-- ===== src/Manifest/Rendered.antt =====
-- internal/manifest/validate.go: ValidateRendered, the gate between rendering a unit and writing it.
use snowdeploy.Base.{
  ℕ, ◌+◌, Text, lit, ◌==◌, is_empty, has_prefix, contains, trim_space, cut, split, itoa, Bool,
  false, ◌||◌, not, List, [], ◌∷◌, ◌++◌, Option, none, some, Error, errors_new, errors_join,
  if◌then◌else◌,
}

-- The map `forbiddenKeys`.
unfoldable pub forbidden_key : Text → Option Text
forbidden_key key =
    if key == lit "AddCapability"
    then some (lit "adds a Linux capability")
    else if key == lit "Privileged"
    then some (lit "requests a privileged container")
    else if key == lit "AddDevice"
    then some (lit "passes a host device through")
    else if key == lit "SecurityLabelDisable"
    then some (lit "disables SELinux confinement")
    else none

unfoldable pub forbidden_podman_args : List Text
forbidden_podman_args =
    lit "--privileged"
    ∷ lit "--cap-add"
    ∷ lit "--userns"
    ∷ lit "--pid=host"
    ∷ lit "--ipc=host"
    ∷ lit "--network=host"
    ∷ lit "--net=host"
    ∷ lit "--security-opt"
    ∷ lit "--device"
    ∷ lit "--publish"
    ∷ lit "-p "
    ∷ []

unfoldable pub has_any_prefix : Text → List Text → Bool
has_any_prefix s [] = false
has_any_prefix s (p ∷ ps) = has_prefix s p || has_any_prefix s ps

unfoldable pub loopback_publish_prefixes : List Text
loopback_publish_prefixes = lit "127.0.0.1:" ∷ lit "[::1]:" ∷ []

abbrev pub at_line : ℕ → Text → Error
at_line n message = errors_new (lit "line " ++ itoa n ++ lit ": " ++ message)

unfoldable pub check_args : ℕ → Text → List Text → List Error
check_args n value [] = []
check_args n value (arg ∷ args) =
    let rest = check_args n value args in
    if contains (value ++ lit " ") arg
    then at_line n (lit "PodmanArgs carries " ++ trim_space arg) ∷ rest
    else rest

abbrev pub refuse_if : Bool → Error → List Error
refuse_if b e = if b then e ∷ [] else []

-- The `switch` on a key that is not forbidden.
unfoldable pub check_value : ℕ → Text → Text → List Error
unfolding check_args has_any_prefix
check_value n key value =
    if key == lit "PublishPort"
    then refuse_if (not (has_any_prefix value loopback_publish_prefixes))
        (at_line n (lit "PublishPort=" ++ value ++ lit " is not loopback-only"))
    else if key == lit "Network"
    then refuse_if (value == lit "host")
        (at_line n (lit "Network=host defeats the loopback-only publish rule"))
    else if key == lit "Image"
    then refuse_if (not (contains value (lit "@sha256:")))
        (at_line n (lit "Image=" ++ value ++ lit " is not pinned by digest"))
    else if key == lit "PodmanArgs"
    then check_args n value forbidden_podman_args
    else []

unfoldable pub check_key : ℕ → Text → Text → Option Text → List Error
unfolding check_value
check_key n key value (some why) = at_line n (key ++ lit "= " ++ why) ∷ []
check_key n key value none = check_value n key value

-- The key and the value of a line that sets one.
unfoldable pub setting : Text → Option (Text × Text)
setting line =
    let trimmed = trim_space line in
    let (key, value, found) = cut b'=' trimmed in
    if is_empty trimmed || has_prefix trimmed (lit "#") || has_prefix trimmed (lit ";")
    then none
    else if found
    then some (trim_space key, trim_space value)
    else none

unfoldable pub check_setting : ℕ → Option (Text × Text) → List Error
unfolding check_key
check_setting n none = []
check_setting n (some (key, value)) = check_key n key value (forbidden_key key)

unfoldable pub check_lines : ℕ → List Text → List Error
unfolding check_setting
check_lines n [] = []
check_lines n (line ∷ lines) = check_setting n (setting line) ++ check_lines (n + 1) lines

unfoldable pub validate_rendered : Text → Option Error
unfolding check_lines
validate_rendered unit = errors_join (check_lines 1 (split b'\n' unit))
