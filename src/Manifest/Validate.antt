-- ===== src/Manifest/Validate.antt =====
-- internal/manifest/validate.go: Validate and its helpers.
use snowdeploy.Base.{
  ℕ, Text, lit, ◌==◌, is_empty, has_prefix, contains, trim_space, cut, is_suffix, eqb, leb, Bool,
  false, ◌&&◌, ◌||◌, not, List, [], ◌∷◌, ◌++◌, Option, none, some, Error, errors_new, wrap,
  errors_join, Result, ok, err, if◌then◌else◌, all, length, last_after, drop_prefix,
}
use snowdeploy.Base.Int.{pos, ltb_ℤ, itoa_ℤ}
use snowdeploy.Platform.{Platform}
use snowdeploy.Manifest.Defs.{Manifest, Limits}
use snowdeploy.Manifest.Paths.{validate_host_path}

-- [0-9a-f]
abbrev pub is_hex : ℕ → Bool
is_hex c = (leb b'0' c && leb c b'9') || (leb b'a' c && leb c b'f')

-- ^sha256:[0-9a-f]{64}$
unfoldable pub is_digest : Text → Bool
is_digest d =
    has_prefix d (lit "sha256:")
    && eqb (length (drop_prefix d (lit "sha256:"))) 64
    && all is_hex (drop_prefix d (lit "sha256:"))

abbrev is_alnum : ℕ → Bool
is_alnum c = (leb b'A' c && leb c b'Z') || (leb b'a' c && leb c b'z') || (leb b'0' c && leb c b'9')

abbrev is_volume_char : ℕ → Bool
is_volume_char c = is_alnum c || eqb c b'.' || eqb c b'_' || eqb c b'-'

-- ^[A-Za-z0-9][A-Za-z0-9._-]*\.volume$
unfoldable pub is_named_volume : Text → Bool
is_named_volume [] = false
is_named_volume (c ∷ s) = is_alnum c && all is_volume_char s && is_suffix s (lit ".volume")

unfoldable pub validate_repository : Text → Option Error
validate_repository repo =
    if is_empty (trim_space repo)
    then some (errors_new (lit "is required"))
    else if contains repo (lit "@")
    then some (errors_new (lit "must not embed a digest; use image.digest"))
    else if contains (last_after b'/' repo) (lit ":")
    then some (errors_new (lit "must not carry a tag; digest pins only"))
    else none

-- `if err := …; err != nil { fail(prefix: %w) }`, onto the errors of the checks that follow.
abbrev pub fail_on : Option Error → Text → List Error → List Error
fail_on none prefix rest = rest
fail_on (some e) prefix rest = wrap (prefix ++ e.text) e ∷ rest

abbrev pub fail_if : Bool → Text → List Error → List Error
fail_if b message rest = if b then errors_new message ∷ rest else rest

abbrev pub check_volume : Text → Limits → Option Error
check_volume v lim =
    if is_named_volume (cut b':' v).0
    then none
    else validate_host_path (cut b':' v).0 lim.volume_prefixes

module _ (F : Platform) where
  abbrev pub check_url : Result (Text × Text) → Option Error
  check_url (err e) = some (wrap (lit "is not a URL: " ++ e.text) e)
  check_url (ok (scheme, host)) =
      if not (scheme == lit "http") && not (scheme == lit "https")
      then some (errors_new (lit "scheme " ++ F.quote scheme ++ lit " is not http or https"))
      else if is_empty host
      then some (errors_new (lit "has no host"))
      else none

  unfoldable pub validate_health_url : Text → Option Error
  validate_health_url raw =
      if is_empty (trim_space raw)
      then some (errors_new (lit "is required"))
      else check_url (F.parse_url raw)

  unfoldable pub check_volumes : List Text → Limits → List Error
  check_volumes [] lim = []
  check_volumes (v ∷ vs) lim =
      fail_on (check_volume v lim) (lit "volume " ++ F.quote v ++ lit ": ") (check_volumes vs lim)

  unfoldable pub check_env_files : List Text → Limits → List Error
  check_env_files [] lim = []
  check_env_files (f ∷ fs) lim =
      fail_on (validate_host_path f lim.env_file_prefixes)
        (lit "env_file " ++ F.quote f ++ lit ": ") (check_env_files fs lim)

  -- The errors, in the order in which the checks are made.
  unfoldable pub validate_errors : Manifest → Limits → List Error
  unfolding check_volumes check_env_files
  validate_errors m lim = fail_if (is_empty (trim_space m.name)) (lit "name is required") (
      fail_if (is_empty (trim_space m.template)) (lit "template is required") (
        fail_on (validate_repository m.image.repository) (lit "image.repository: ") (
          fail_if (not (is_digest m.image.digest))
            (lit "image.digest "
              ++ F.quote m.image.digest
              ++ lit " is not a sha256 digest pin (tags are rejected)")
            (fail_if (ltb_ℤ m.port (pos 1) || ltb_ℤ (pos 65535) m.port)
              (lit "port " ++ itoa_ℤ m.port ++ lit " is outside 1-65535")
              (fail_on (validate_health_url m.health.url) (lit "health.url: ") (
                fail_if (ltb_ℤ m.health.timeout (pos 0))
                  (lit "health.timeout " ++ F.duration_text m.health.timeout ++ lit " is negative")
                  (check_volumes m.volumes lim ++ check_env_files m.env_files lim)))))))

  unfoldable pub validate : Manifest → Limits → Option Error
  validate m lim = errors_join (validate_errors m lim)
