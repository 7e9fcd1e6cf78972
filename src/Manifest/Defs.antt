-- ===== src/Manifest/Defs.antt =====
-- internal/manifest/manifest.go: the types, and what does not need a decoder.
use snowdeploy.Base.{ℕ, Text, lit, trim_space, is_empty, List, ◌++◌, if◌then◌else◌}
use snowdeploy.Base.Int.{ℤ, pos, eqb_ℤ}

pub record Image : Type 0 where
  pub repository : Text
  pub digest : Text

pub record Health : Type 0 where
  pub url : Text
  pub timeout : ℤ

pub record Manifest : Type 0 where
  pub name : Text
  pub description : Text
  pub image : Image
  pub template : Text
  pub port : ℤ
  pub network : Text
  pub env : List (Text × Text)
  pub env_files : List Text
  pub volumes : List Text
  pub health : Health

-- The host-side allowlists; an empty one disables its check.
pub record Limits : Type 0 where
  pub volume_prefixes : List Text
  pub env_file_prefixes : List Text

-- 30 seconds, in nanoseconds.
abbrev pub default_health_timeout : ℕ
default_health_timeout = 30000000000

unfoldable pub unit_description : Manifest → Text
unit_description m = if is_empty (trim_space m.description) then m.name else m.description

unfoldable pub ref : Image → Text
ref i = i.repository ++ lit "@" ++ i.digest

unfoldable pub apply_defaults : Manifest → Manifest
apply_defaults m =
    if eqb_ℤ m.health.timeout (pos 0)
    then record m { health = record m.health { timeout = pos default_health_timeout } }
    else m
