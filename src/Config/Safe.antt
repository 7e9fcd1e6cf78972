-- ===== src/Config/Safe.antt =====
-- The configurations that Load accepts (internal/config/config.go).
use mathlib.Core.Path.{subst}
use snowdeploy.Base.{
  Text, lit, ◌≡◌, ◌≢◌, refl, sym, ◌⊎◌, inl, inr, ◌↔◌, ◌==◌, ==_iff, is_empty, trim_space, Bool,
  true, false, not, ◌&&◌, All, In, List, [], ◌∷◌, map, none, Bool-cases,
}
use snowdeploy.Base.Int.{pos}
use snowdeploy.Config.{
  Config, is_absolute, no_users, differ, required_fields, check_required, check_absolute,
  identity_checks, checks, validate,
}
use snowdeploy.Config.Checks.{
  IsSilent, iff_trans, joined-IsSilent, fail_when-none, IsSilent-append, IsSilent-map, StartsWith,
  has_prefix_iff, IsLoopback, check_loopback-none, check_absolute-none, is_empty-false, eqb_ℤ-zero,
}

-- A value that is given.
abbrev pub IsGiven : Text → Type 0
IsGiven value = trim_space value ≢ []

-- What makes a configuration safe to serve with.
pub record IsSafe (c : Config) : Type 0 where
  pub listens_locally : IsLoopback c.listen
  pub metrics_local : IsLoopback c.metrics_listen
  pub listeners_differ : c.listen ≢ c.metrics_listen
  pub repo_url : IsGiven c.repo_url
  pub key_file : IsGiven c.github_key_file
  pub owner : IsGiven c.github_owner
  pub repo : IsGiven c.github_repo
  pub app_id : c.github_app_id ≢ pos 0
  pub install_id : c.github_install_id ≢ pos 0
  pub proxy_whole : (c.proxy_secret_file ≡ []) ↔ (c.proxy_allowed_users ≡ [])
  pub secret_absolute : c.proxy_secret_file ≢ [] → StartsWith (lit "/") c.proxy_secret_file
  pub volumes_absolute : All (StartsWith (lit "/")) c.volume_prefixes
  pub env_files_absolute : All (StartsWith (lit "/")) c.env_file_prefixes

-- A range over a map visits each of its entries, in some order.
abbrev pub Visits : (List (Text × Text) → List (Text × Text)) → Type 0
Visits walk = (fields : List (Text × Text)) (f : Text × Text) → In f (walk fields) ↔ In f fields

All-In : {A : Type 0} (P : A → Type 0) (xs : List A) → All P xs ↔ ((x : A) → In x xs → P x)
All-In {A} P [] = (λ h x m. absurd m, λ h. tt)
All-In {A} P (y ∷ ys) =
    let rest = All-In P ys in
    (λ h x m. at (rest.0 h.1) h.0 m, λ h. (h y (inl refl), rest.1 (λ x m. h x (inr m))))
  where
    at : {x : A} → ((z : A) → In z ys → P z) → P y → (x ≡ y) ⊎ In x ys → P x
    at all p (inl e) = subst P (sym e) p
    at all p (inr m) = all _ m

Visits-All :
    (walk : List (Text × Text) → List (Text × Text))
    → Visits walk
    → (P : Text × Text → Type 0) (fields : List (Text × Text)) → All P (walk fields) ↔ All P fields
Visits-All walk visits P fields =
    let walked = All-In P (walk fields) in
    let plain = All-In P fields in
    (
      λ h. plain.1 (λ x m. walked.0 h x ((visits fields x).1 m)),
      λ h. walked.1 (λ x m. plain.0 h x ((visits fields x).0 m)),
    )

required-none : (f : Text × Text) → (check_required f ≡ none) ↔ IsGiven f.1
required-none (field, value) =
    let guard = fail_when-none (is_empty (trim_space value)) _ in
    let given = is_empty-false (trim_space value) in
    (λ h. given.0 (guard.0 h), λ h. guard.1 (given.1 h))

differ-false :
    (secret : Text) (users : List Text)
    → (differ (not (is_empty secret)) (not (no_users users)) ≡ false)
      ↔ ((secret ≡ []) ↔ (users ≡ []))
differ-false [] [] = (λ h. (λ e. refl, λ e. refl), λ h. refl)
differ-false [] (u ∷ us) = (λ h. cc, λ h. cc (h.0 refl))
differ-false (c ∷ s) [] = (λ h. cc, λ h. cc (h.1 refl))
differ-false (c ∷ s) (u ∷ us) = (λ h. (λ e. cc, λ e. cc), λ h. refl)

and-not : (b : Bool) (s : Text) → ((not (is_empty s) && not b) ≡ false) ↔ (s ≢ [] → b ≡ true)
and-not b [] = (λ h k. absurd (k refl), λ h. refl)
and-not true (c ∷ s) = (λ h k. refl, λ h. refl)
and-not false (c ∷ s) = (λ h. cc, λ h. cc (h (λ e. cc)))

==-false : (s t : Text) → ((s == t) ≡ false) ↔ (s ≢ t)
==-false s t = (λ h e. cc ((==_iff s t).1 e), λ h. differs h)
  where
    differs : s ≢ t → (s == t) ≡ false
    differs h = elim (Bool-cases (s == t)) [ inl e ↦ absurd (h ((==_iff s t).0 e)) | inr e ↦ e ]

module _ (quote : Text → Text) (walk : List (Text × Text) → List (Text × Text))
    (visits : Visits walk) (c : Config) where
  required-IsSilent :
      IsSilent (map check_required (walk (required_fields c)))
      ↔ All (λ f. IsGiven f.1) (required_fields c)
  required-IsSilent =
      let silent =
        IsSilent-map check_required (λ f. IsGiven f.1) (walk (required_fields c)) required-none in
      let walked = Visits-All walk visits (λ f. IsGiven f.1) (required_fields c) in
      (λ h. walked.0 (silent.0 h), λ h. silent.1 (walked.1 h))

  absolute-IsSilent :
      (field : Text) (ps : List Text)
      → IsSilent (map (check_absolute quote field) ps) ↔ All (StartsWith (lit "/")) ps
  absolute-IsSilent field ps =
      IsSilent-map (check_absolute quote field) (StartsWith (lit "/")) ps
        (check_absolute-none quote field)

  -- The second half of the checks.
  identity-IsSilent : IsSilent (identity_checks quote walk c) ↔ (
      (c.github_app_id ≢ pos 0)
      × (c.github_install_id ≢ pos 0)
      × ((c.proxy_secret_file ≡ []) ↔ (c.proxy_allowed_users ≡ []))
      × (c.proxy_secret_file ≢ [] → StartsWith (lit "/") c.proxy_secret_file)
      × All (StartsWith (lit "/")) c.volume_prefixes
      × All (StartsWith (lit "/")) c.env_file_prefixes)
  identity-IsSilent =
      let app = iff_trans (fail_when-none _ _) (eqb_ℤ-zero c.github_app_id) in
      let install = iff_trans (fail_when-none _ _) (eqb_ℤ-zero c.github_install_id) in
      let whole =
        iff_trans (fail_when-none _ _) (differ-false c.proxy_secret_file c.proxy_allowed_users) in
      let secret =
        iff_trans (fail_when-none _ _)
          (and-not (is_absolute c.proxy_secret_file) c.proxy_secret_file) in
      let rooted = has_prefix_iff c.proxy_secret_file (lit "/") in
      let prefixes =
        IsSilent-append (map (check_absolute quote (lit "volume_prefixes")) c.volume_prefixes)
          (map (check_absolute quote (lit "env_file_prefixes")) c.env_file_prefixes) in
      let volumes = absolute-IsSilent (lit "volume_prefixes") c.volume_prefixes in
      let env_files = absolute-IsSilent (lit "env_file_prefixes") c.env_file_prefixes in
      (
        λ h. (
          app.0 h.0,
          install.0 h.1.0,
          whole.0 h.1.1.0,
          λ k. rooted.0 (secret.0 h.1.1.1.0 k),
          volumes.0 (prefixes.0 h.1.1.1.1).0,
          env_files.0 (prefixes.0 h.1.1.1.1).1,
        ),
        λ h. (
          app.1 h.0,
          (
            install.1 h.1,
            (
              whole.1 h.2,
              (secret.1 (λ k. rooted.1 (h.3 k)), prefixes.1 (volumes.1 h.4, env_files.1 h.5)),
            ),
          ),
        ),
      )

  checks-IsSafe : IsSilent (checks quote walk c) ↔ IsSafe c
  checks-IsSafe =
      let listen = check_loopback-none quote (lit "listen") c.listen in
      let metrics = check_loopback-none quote (lit "metrics_listen") c.metrics_listen in
      let distinct = iff_trans (fail_when-none _ _) (==-false c.listen c.metrics_listen) in
      let parts =
        IsSilent-append (map check_required (walk (required_fields c)))
          (identity_checks quote walk c) in
      let required = required-IsSilent in
      let identity = identity-IsSilent in
      (
        λ h.
            let given = required.0 (parts.0 h.1.1.1).0 in
            let rest = identity.0 (parts.0 h.1.1.1).1 in
            record {
              listens_locally = listen.0 h.0;
              metrics_local = metrics.0 h.1.0;
              listeners_differ = distinct.0 h.1.1.0;
              repo_url = given.0;
              key_file = given.1.0;
              owner = given.1.1.0;
              repo = given.1.1.1.0;
              app_id = rest.0;
              install_id = rest.1;
              proxy_whole = rest.2;
              secret_absolute = rest.3;
              volumes_absolute = rest.4;
              env_files_absolute = rest.5;
            },
        λ s.
            let given = required.1 (s.repo_url, (s.key_file, (s.owner, (s.repo, tt)))) in
            let rest = identity.1 (
              s.app_id, s.install_id, s.proxy_whole, s.secret_absolute, s.volumes_absolute,
              s.env_files_absolute,
            ) in
            (
              listen.1 s.listens_locally,
              (metrics.1 s.metrics_local, (distinct.1 s.listeners_differ, parts.1 (given, rest))),
            ),
      )

  pub validate-IsSafe : (validate quote walk c ≡ none) ↔ IsSafe c
  unfolding validate
  validate-IsSafe = iff_trans (joined-IsSilent (checks quote walk c)) checks-IsSafe
