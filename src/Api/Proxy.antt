-- ===== src/Api/Proxy.antt =====
-- internal/api/proxy.go: the boundary that believes a Remote-User only beside the shared secret.
-- A secret is the list of its bytes, an identity that of its code points; SHA-256 and `%q` are
-- parameters. What is logged of a refusal is not modelled.
use mathlib.Core.List.{reverse}
use snowdeploy.Base.{
  ℕ, Text, lit, ◌==◌, ◌||◌, is_empty, contains, trim_space, length, eqb, ltb, itoa, not, Bool, true,
  false, List, [], ◌∷◌, ◌++◌, Option, none, some, errors_new, Result, ok, err, if◌then◌else◌, any,
}

abbrev pub min_proxy_secret_bytes : ℕ
min_proxy_secret_bytes = 32

-- The allowlist is a set, here in the order of the configuration.
pub record ProxyBoundary : Type 0 where
  pub allowed : List Text
  pub secret_digest : Text

-- strings.TrimRight(s, "\r\n")
abbrev drop_breaks : Text → Text
drop_breaks [] = []
drop_breaks (c ∷ s) = let rest = drop_breaks s in if eqb c b'\r' || eqb c b'\n' then rest else c ∷ s

abbrev pub with_identity : Text → Result (List Text) → Result (List Text)
with_identity t (ok ts) = ok (t ∷ ts)
with_identity t (err e) = err e

abbrev pub no_identity : List Text → Bool
no_identity [] = true
no_identity (t ∷ ts) = false

-- The one identity, if it is on the allowlist.
abbrev pub listed : List Text → List Text → Option Text
listed allowed (user ∷ []) = if any (λ t. t == user) allowed then some user else none
listed allowed _ = none

abbrev pub is_usable : Text → Bool
is_usable identity =
    not (is_empty identity || not (identity == trim_space identity) || contains identity (lit ","))

abbrev pub too_short : Text → Bool
too_short secret = ltb (length secret) min_proxy_secret_bytes

unfoldable pub load_proxy_secret : Text → Result Text → Result Text
load_proxy_secret path (err e) = err e
load_proxy_secret path (ok raw) =
    let secret = reverse (drop_breaks (reverse raw)) in
    if too_short secret
    then err (
        errors_new (
          path
          ++ lit " holds a "
          ++ itoa (length secret)
          ++ lit "-byte secret, want at least "
          ++ itoa min_proxy_secret_bytes))
    else ok secret

module _ (quote sha256 : Text → Text) where
  -- The loop over the configured identities, and the identities accepted.
  unfoldable pub accept_identities : List Text → Result (List Text)
  accept_identities [] = ok []
  accept_identities (identity ∷ rest) =
      let behind = accept_identities rest in
      if is_usable identity
      then with_identity identity behind
      else err
          (errors_new (lit "proxy boundary: " ++ quote identity ++ lit " is not a usable identity"))

  abbrev pub bounded : Text → Result (List Text) → Result ProxyBoundary
  bounded secret (err e) = err e
  bounded secret (ok allowed) = ok (record { allowed = allowed; secret_digest = sha256 secret })

  unfoldable pub new_proxy_boundary : Text → List Text → Result ProxyBoundary
  new_proxy_boundary secret allowed =
      if too_short secret
      then err (
          errors_new (
            lit "proxy boundary: the secret is "
            ++ itoa (length secret)
            ++ lit " bytes, want at least "
            ++ itoa min_proxy_secret_bytes))
      else if no_identity allowed
      then err (errors_new (lit "proxy boundary: the identity allowlist is empty"))
      else bounded secret (accept_identities allowed)

  -- The values of the two headers, Remote-User first.
  unfoldable pub identity : ProxyBoundary → List Text → List Text → Option Text
  identity b identities (secret ∷ []) =
      if sha256 secret == b.secret_digest then listed b.allowed identities else none
  identity b identities _ = none
