-- ===== src/Api/Boundary.antt =====
-- What the proxy boundary admits (internal/api/proxy.go).
use mathlib.Core.Path.{subst}
use snowdeploy.Base.{
  Text, lit, ◌≡◌, ◌≢◌, refl, sym, ap, ◌∙◌, inl, inr, ◌==◌, ==→eq, ==_iff, contains, trim_space,
  true, false, List, [], ◌∷◌, Option, none, some, Result, ok, err, All, In, any, Bool-cases,
}
use snowdeploy.Occurs.{Occurs, Occurs-contains}
use snowdeploy.Api.Grants.{OnOk}
use snowdeploy.Api.Bearers.{OnSome}
use snowdeploy.Api.Proxy.{
  ProxyBoundary, is_usable, too_short, no_identity, listed, with_identity, accept_identities,
  bounded, new_proxy_boundary, identity,
}

-- An identity that a header can name exactly.
pub record IsUsable (identity : Text) : Type 0 where
  pub not_empty : identity ≢ []
  pub trimmed : identity ≡ trim_space identity
  pub no_comma : ¬ (Occurs (lit ",") identity)

is_usable-IsUsable : (t : Text) → is_usable t ≡ true → IsUsable t
is_usable-IsUsable [] h = cc
is_usable-IsUsable (c ∷ t) h = elim (Bool-cases (c ∷ t == trim_space (c ∷ t))) [
  | inr untrimmed ↦ cc (rw untrimmed at h)
  | inl same ↦ elim (Bool-cases (contains (c ∷ t) (lit ","))) [
    | inl comma ↦ cc (rw (same, comma) at h)
    | inr plain ↦ record {
      not_empty = λ e. cc;
      trimmed = ==→eq (c ∷ t) _ same;
      no_comma = λ o. cc (plain, Occurs-contains (lit ",") (c ∷ t) o);
    }
  ]
]

any-In : (t : Text) (ts : List Text) → any (λ u. u == t) ts ≡ true → In t ts
any-In t [] h = cc
any-In t (u ∷ ts) h = elim (Bool-cases (u == t)) [
  | inl here ↦ inl (sym (==→eq u t here))
  | inr later ↦ inr (any-In t ts (rw later at h))
]

All-at : (P : Text → Type 0) (t : Text) (ts : List Text) → All P ts → In t ts → P t
All-at P t [] h m = absurd m
All-at P t (u ∷ ts) h (inl same) = subst P (sym same) h.0
All-at P t (u ∷ ts) h (inr m) = All-at P t ts h.1 m

module _ (quote sha256 : Text → Text) where
  accept_identities-all :
      (ts : List Text)
      → OnOk (λ us. (us ≡ ts) × All IsUsable ts) (accept_identities quote sha256 ts)
  unfolding accept_identities
  accept_identities-all [] = (refl, tt)
  accept_identities-all (t ∷ ts) = elim (Bool-cases (is_usable t)) [
    | inl usable ↦ rw usable (
        onto (accept_identities quote sha256 ts) (is_usable-IsUsable t usable)
          (accept_identities-all ts))
    | inr unusable ↦ rw unusable tt
  ]
    where
      onto :
          (r : Result (List Text))
          → IsUsable t
          → OnOk (λ us. (us ≡ ts) × All IsUsable ts) r
          → OnOk (λ us. (us ≡ t ∷ ts) × All IsUsable (t ∷ ts)) (with_identity t r)
      onto (ok us) usable h = (ap (λ (x : List Text). t ∷ x) h.0, (usable, h.1))
      onto (err e) usable h = tt

  -- A boundary that is built: of a long enough secret, and of identities that are all usable.
  abbrev pub IsBuilt : Text → List Text → ProxyBoundary → Type 0
  IsBuilt secret allowed b =
      (too_short secret ≡ false)
      × (b.allowed ≡ allowed)
      × (b.secret_digest ≡ sha256 secret)
      × All IsUsable allowed

  new_proxy_boundary-IsBuilt :
      (secret : Text) (allowed : List Text)
      → OnOk (IsBuilt secret allowed) (new_proxy_boundary quote sha256 secret allowed)
  unfolding new_proxy_boundary
  new_proxy_boundary-IsBuilt secret allowed = elim (Bool-cases (too_short secret)) [
    | inl short ↦ rw short tt
    | inr long ↦ rw long (elim (Bool-cases (no_identity allowed)) [
      | inl nobody ↦ rw nobody tt
      | inr somebody ↦
          rw somebody
            (built (accept_identities quote sha256 allowed) long (accept_identities-all allowed))
    ])
  ]
    where
      built :
          (r : Result (List Text))
          → too_short secret ≡ false
          → OnOk (λ us. (us ≡ allowed) × All IsUsable allowed) r
          → OnOk (IsBuilt secret allowed) (bounded quote sha256 secret r)
      built (ok us) long h = (long, h.0, refl, h.1)
      built (err e) long h = tt

  -- What is known of a request whose identity is believed.
  abbrev pub IsProved : Text → List Text → List Text → List Text → Text → Type 0
  IsProved secret allowed identities secrets user =
      (identities ≡ user ∷ [])
      × ((presented : Text) × (secrets ≡ presented ∷ []) × (sha256 presented ≡ sha256 secret))
      × In user allowed
      × IsUsable user
      × (too_short secret ≡ false)

  identity-listed :
      (allowed identities : List Text)
      → OnSome (λ user. (identities ≡ user ∷ []) × In user allowed) (listed allowed identities)
  identity-listed allowed [] = tt
  identity-listed allowed (user ∷ []) = elim (Bool-cases (any (λ t. t == user) allowed)) [
    | inl on ↦ rw on (refl, any-In user allowed on)
    | inr off ↦ rw off tt
  ]
  identity-listed allowed (user ∷ other ∷ rest) = tt

  -- The proxy path admits an identity only from a request in which Remote-User and the secret appear
  -- exactly once each, the secret has the digest of the configured one, which is at least the least
  -- length, and the identity is on the configured allowlist and is usable: not empty, without blanks
  -- around it and without a comma.
  pub identity-IsProved :
      (secret : Text) (allowed identities secrets : List Text)
      → OnOk
          (λ b.
            OnSome
              (IsProved secret allowed identities secrets)
              (identity quote sha256 b identities secrets))
          (new_proxy_boundary quote sha256 secret allowed)
  unfolding identity
  identity-IsProved secret allowed identities secrets =
      of_boundary (new_proxy_boundary quote sha256 secret allowed)
        (new_proxy_boundary-IsBuilt secret allowed)
    where
      proved :
          (b : ProxyBoundary) (presented : Text) (o : Option Text)
          → IsBuilt secret allowed b
          → sha256 presented ≡ b.secret_digest
          → secrets ≡ presented ∷ []
          → OnSome (λ user. (identities ≡ user ∷ []) × In user b.allowed) o
          → OnSome (IsProved secret allowed identities secrets) o
      proved b presented none h same one k = tt
      proved b presented (some user) (long, list, digest, usable) same one (once, m) =
          let among = subst (λ (ts : List Text). In user ts) list m in
          (once, (presented, one, same ∙ digest), among, All-at _ user allowed usable among, long)

      shown :
          (b : ProxyBoundary) (presented : List Text)
          → secrets ≡ presented
          → IsBuilt secret allowed b
          → OnSome
              (IsProved secret allowed identities secrets)
              (identity quote sha256 b identities presented)
      shown b [] same h = tt
      shown b (s ∷ []) same h = elim (Bool-cases (sha256 s == b.secret_digest)) [
        | inl hit ↦ rw hit (
            proved b s (listed b.allowed identities) h (==→eq _ _ hit) same
              (identity-listed b.allowed identities))
        | inr miss ↦ rw miss tt
      ]
      shown b (s ∷ t ∷ rest) same h = tt

      of_boundary :
          (r : Result ProxyBoundary)
          → OnOk (IsBuilt secret allowed) r
          → OnOk
              (λ b.
                OnSome
                  (IsProved secret allowed identities secrets)
                  (identity quote sha256 b identities secrets))
              r
      of_boundary (err e) h = tt
      of_boundary (ok b) h = shown b secrets refl h

  any-of_In : (t : Text) (ts : List Text) → In t ts → any (λ u. u == t) ts ≡ true
  any-of_In t [] m = absurd m
  any-of_In t (u ∷ ts) (inl same) = rw ((==_iff u t).1 (sym same)) refl
  any-of_In t (u ∷ ts) (inr m) = elim (Bool-cases (u == t)) [
    | inl here ↦ rw here refl
    | inr later ↦ rw later (any-of_In t ts m)
  ]

  -- The proxy's own requests get through: with one identity that is on the allowlist and one secret of
  -- the configured digest, that identity is admitted.
  identity-admits :
      (b : ProxyBoundary) (user presented : Text)
      → sha256 presented ≡ b.secret_digest
      → In user b.allowed
      → identity quote sha256 b (user ∷ []) (presented ∷ []) ≡ some user
  unfolding identity
  identity-admits b user presented same m =
      rw ((==_iff (sha256 presented) b.secret_digest).1 same, any-of_In user b.allowed m) refl
