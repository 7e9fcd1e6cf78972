-- ===== src/Tests/Access.antt =====
-- The theorems on tokens, the proxy boundary and the mutating routes.
use snowdeploy.Base.{
  ℕ, Text, lit, ◌≡◌, refl, ◌==◌, [], ◌∷◌, ◌++◌, true, false, none, has_prefix, drop_prefix,
  trim_prefix, trim_space, trim_left, is_space, split, join, contains, Result, ok,
}
use snowdeploy.Api.Tokens.{
  Operation, parse_token_line, match_token, bearer_token, parse_token_hash_file, parse_lines,
  scanned, find_hash, parse_fields, fields, split_spaces, label_fields,
}
use snowdeploy.Api.Server.{
  Authenticator, Backend, Request, actor, authed_for, accepted, deploys, handle, handle_deploy,
  service, dispatch,
}
use snowdeploy.Api.Grants.{OnOk}
use snowdeploy.Api.Bearers.{OnSome}
use snowdeploy.Api.Proxy.{ProxyBoundary, new_proxy_boundary, identity}
use snowdeploy.Api.Boundary.{IsProved, identity-IsProved}

abbrev quote : Text → Text
quote t = lit "\"" ++ t ++ lit "\""

abbrev lower : ℕ → ℕ
lower c = c

abbrev token_line : Text
token_line = lit "AB12 release bot scope=converge"

abbrev token_file : Result Text
token_file = ok (lit "# operators\n\"t\" ops\n")

abbrev secret : Text
secret = lit "0123456789abcdef0123456789abcdef"

identity-IsProved_example :
    OnOk
      (λ b.
        OnSome
          (IsProved quote quote secret (lit "ann" ∷ []) (lit "ann" ∷ []) (secret ∷ []))
          (identity quote quote b (lit "ann" ∷ []) (secret ∷ [])))
      (new_proxy_boundary quote quote secret (lit "ann" ∷ []))
identity-IsProved_example =
    identity-IsProved quote quote secret (lit "ann" ∷ []) (lit "ann" ∷ []) (secret ∷ [])

abbrev authenticator : Authenticator
authenticator = record {
  token_hash_file = lit "/etc/hashes";
  token_hashes = token_file;
  proxy = none;
}

abbrev backend : Backend
backend = record {
  sync_state = (true, none);
  manifest = λ name. none;
  engine = λ c. ok (7, false);
  sync_state_behind = (true, none);
}

abbrev click : Request
click = record {
  name = lit "web";
  headers = record { authorization = lit "Bearer t"; remote_user = []; proxy_secret = [] };
  body = lit "sha256:aa";
}

abbrev decode : Text → Result Text
decode body = ok body

-- The click is authenticated, and reaches the engine.
click_test : authed_for quote lower quote decode Operation.deploy authenticator backend click ≡ (
  record { code = 202; body = accepted 7 false },
  deploys (lit "web") (lit "sha256:aa") (lit "ops") ∷ [],
)
click_test =
    unfold authed_for actor bearer_token match_token parse_token_hash_file parse_lines scanned
      find_hash parse_token_line parse_fields fields split_spaces label_fields handle handle_deploy
      service dispatch lit has_prefix drop_prefix trim_prefix trim_space trim_left is_space split
      join contains ◌==◌ in
    refl

abbrev boundary : ProxyBoundary
boundary = record { allowed = lit "ann" ∷ []; secret_digest = quote secret }
