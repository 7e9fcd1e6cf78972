-- ===== src/Reconcile/Podman/Found.antt =====
-- What RunningImage answers (internal/reconcile/systemd.go).
use snowdeploy.Base.{
  Text, lit, ◌≡◌, ◌≢◌, refl, sym, ap, ◌∙◌, ◌⊎◌, inl, inr, is_empty, trim_space, true, false, List,
  [], ◌∷◌, ◌++◌, Option, Error, Result, ok, err, Bool-cases,
}
use snowdeploy.Reconcile.Podman.{
  CommandError, output, inspect, digest_of, first_digest, running_image,
}

module _ (exec : List Text → Text × Option CommandError) where
  -- podman reports a digest for a container of this name.
  abbrev pub Reports : Text → Text → Type 0
  Reports name digest =
      (out : Text) × (output exec (inspect exec name) ≡ ok out)
      × (trim_space out ≡ digest)
      × (digest ≢ [])

  abbrev pub IsSilent : Text → Type 0
  IsSilent name = (digest : Text) → ¬ (Reports name digest)

  -- The digest of the bare name, else of the prefixed one, else none.
  abbrev pub IsRunning : Text → Result Text → Type 0
  IsRunning service (ok digest) =
      Reports service digest ⊎ (IsSilent service × Reports (lit "systemd-" ++ service) digest)
  IsRunning service (err e) = IsSilent service × IsSilent (lit "systemd-" ++ service)

  -- What one answer of podman says.
  abbrev Says : Text → Result Text → Type 0
  Says name (ok digest) = Reports name digest
  Says name (err e) = IsSilent name

  full : (t : Text) → is_empty t ≡ false → t ≢ []
  full [] h e = cc
  full (c ∷ t) h e = cc

  blank : (t : Text) → is_empty t ≡ true → t ≡ []
  blank [] h = refl
  blank (c ∷ t) h = cc

  digest_of-Says :
      (name : Text) (r : Result Text)
      → output exec (inspect exec name) ≡ r
      → Says name (digest_of exec name r)
  digest_of-Says name (err e) h = λ digest p. cc (p.1)
  digest_of-Says name (ok out) h = elim (Bool-cases (is_empty (trim_space out))) [
    | inl empty ↦ rw empty (λ digest p. nothing empty digest p)
    | inr given ↦ rw given (out, h, refl, full (trim_space out) given)
  ]
    where
      nothing : is_empty (trim_space out) ≡ true → IsSilent name
      nothing empty digest p =
          let same : p.0 ≡ out = cc (p.1) in
          p.3 (sym p.2 ∙ ap trim_space same ∙ blank (trim_space out) empty)

  -- RunningImage answers the digest that podman reports for the service's own name, else for the
  -- name that systemd gives its container; and it fails only if podman reports none for either.
  running_image-IsRunning : (service : Text) → IsRunning service (running_image exec service)
  unfolding running_image
  running_image-IsRunning service =
      of_bare (digest_of exec service (output exec (inspect exec service)))
        (digest_of-Says service _ refl)
    where
      other : Text
      other = lit "systemd-" ++ service

      of_prefixed :
          (last : Error) (r : Result Text)
          → IsSilent service
          → Says other r
          → IsRunning service
              (elim r [ ok digest ↦ ok digest | err e ↦ first_digest exec service e [] ])
      of_prefixed last (ok digest) s p = inr (s, p)
      of_prefixed last (err e) s p = (s, p)

      of_bare :
          (r : Result Text)
          → Says service r
          → IsRunning service
              (elim r [ ok digest ↦ ok digest | err e ↦ first_digest exec service e (other ∷ []) ])
      of_bare (ok digest) p = inl p
      of_bare (err e) p =
          of_prefixed e (digest_of exec other (output exec (inspect exec other))) p
            (digest_of-Says other _ refl)
