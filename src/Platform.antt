-- ===== src/Platform.antt =====
-- What the program calls and does not implement: fmt's %q and %v, net/url, gopkg.in/yaml.v3,
-- text/template. Every definition that needs one of them takes a `Platform`.
use snowdeploy.Base.{Text, Result}
use snowdeploy.Base.Int.{ℤ}
use snowdeploy.Manifest.Defs.{Manifest}

pub record Platform : Type 0 where
  -- %q of a string
  pub quote : Text → Text
  -- %v and %s of a time.Duration
  pub duration_text : ℤ → Text
  -- url.Parse, as the scheme and the host that it finds
  pub parse_url : Text → Result (Text × Text)
  -- yaml's Decoder.Decode with KnownFields(true)
  pub decode_yaml : Text → Result Manifest
  -- template.New("unit").Option("missingkey=error").Parse, and Execute of what it parsed
  pub render_template : Text → Manifest → Result Text
