-- ===== src/Tests/Manifests.antt =====
-- The theorems on manifests and rendered units, at concrete ones.
use snowdeploy.Base.{
  Text, lit, ◌≡◌, refl, cut, split, trim_space, trim_left, is_space, contains, ◌==◌, has_prefix,
  ◌++◌, none, All,
}
use snowdeploy.Manifest.Rendered.{
  forbidden_key, forbidden_podman_args, has_any_prefix, loopback_publish_prefixes, check_args,
  check_value, check_key, setting, check_setting, check_lines, validate_rendered,
}
use snowdeploy.Manifest.Safety.{IsSafeLine, validate_rendered-safe}
use snowdeploy.Manifest.Continued.{Lacks, continuation_unread}

abbrev unit : Text
unit =
    lit
      "[Container]\n# web\nImage=registry.example.com/web@sha256:aa\nNetwork=acme\nPublishPort=127.0.0.1:8080:8080\nPodmanArgs=--memory 1g\n"

unit_passes : validate_rendered unit ≡ none
unit_passes =
    unfold validate_rendered check_lines check_setting setting lit trim_space trim_left is_space cut
      split has_prefix forbidden_key ◌==◌ check_key check_value check_args has_any_prefix
      loopback_publish_prefixes forbidden_podman_args contains in
    refl

validate_rendered-safe_example : All IsSafeLine (split b'\n' unit)
validate_rendered-safe_example = validate_rendered-safe unit unit_passes

abbrev privileged : Text
privileged = lit "--privileged"

no_equals_sign : Lacks b'=' privileged
no_equals_sign =
    unfold lit in
    (
      refl,
      (refl, (refl, (refl, (refl, (refl, (refl, (refl, (refl, (refl, (refl, (refl, tt))))))))))),
    )

no_line_break : Lacks b'\n' privileged
no_line_break =
    unfold lit in
    (
      refl,
      (refl, (refl, (refl, (refl, (refl, (refl, (refl, (refl, (refl, (refl, (refl, tt))))))))))),
    )

continuation_unread_example : validate_rendered (lit "PodmanArgs=\\\n" ++ privileged) ≡ none
continuation_unread_example = continuation_unread privileged no_equals_sign no_line_break
