-- ===== src/Manifest/Valid.antt =====
-- A manifest that Validate lets through (internal/manifest/validate.go).
use snowdeploy.Base.{
  ℕ, ◌≤◌, Text, lit, ◌≡◌, ◌≢◌, ◌⊎◌, trim_space, cut, last_after, true, [], ok, All,
}
use snowdeploy.Base.Int.{pos}
use snowdeploy.Occurs.{Occurs}
use snowdeploy.Platform.{Platform}
use snowdeploy.Manifest.Defs.{Manifest, Limits}
use snowdeploy.Manifest.Confinement.{IsConfined}
use snowdeploy.Manifest.Validate.{is_digest, is_named_volume}

-- A volume: a named Quadlet volume, or a host path that is confined where prefixes are configured.
abbrev pub IsVolume : Limits → Text → Type 0
IsVolume lim v =
    (is_named_volume (cut b':' v).0 ≡ true)
    ⊎ (lim.volume_prefixes ≡ [])
    ⊎ IsConfined (cut b':' v).0 lim.volume_prefixes

pub record IsValid (F : Platform) (m : Manifest) (lim : Limits) : Type 0 where
  pub has_name : trim_space m.name ≢ []
  pub has_template : trim_space m.template ≢ []
  pub pins_digest : is_digest m.image.digest ≡ true
  pub embeds_no_digest : ¬ (Occurs (lit "@") m.image.repository)
  pub carries_no_tag : ¬ (Occurs (lit ":") (last_after b'/' m.image.repository))
  pub port_in_range : (n : ℕ) × (m.port ≡ pos n) × (1 ≤ n) × (n ≤ 65535)
  pub probes_http :
      (scheme : Text) × (host : Text) × (F.parse_url m.health.url ≡ ok (scheme, host))
      × ((scheme ≡ lit "http") ⊎ (scheme ≡ lit "https"))
      × (host ≢ [])
  pub timeout_not_negative : (n : ℕ) × (m.health.timeout ≡ pos n)
  pub volumes_confined : All (IsVolume lim) m.volumes
  pub env_files_confined :
      All (λ f. (lim.env_file_prefixes ≡ []) ⊎ IsConfined f lim.env_file_prefixes) m.env_files
