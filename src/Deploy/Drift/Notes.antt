-- ===== src/Deploy/Drift/Notes.antt =====
-- What Drift reports (internal/deploy/engine.go).
use mathlib.Core.Path.{subst}
use snowdeploy.Base.{
  Text, ◌≡◌, refl, sym, ap, ◌∙◌, ◌⊎◌, ◌↔◌, inl, inr, ◌==◌, ==→eq, ==_refl, false, List, [], ◌∷◌, In,
  Option, none, some, Result, ok, err, Bool-cases,
}
use snowdeploy.Dict.{Dict, lookup, lookup-put, lookup-put_other}
use snowdeploy.Manifest.Defs.{Manifest}
use snowdeploy.Deploy.Drift.{compare_running, compare_manifest, noted, drift_of, drift}

module _ (manifest : Text → Result Manifest) (running_image : Text → Result Text) where
  -- The service runs what its manifest pins.
  abbrev pub IsInLine : Text → Type 0
  IsInLine service =
      (m : Manifest) × (manifest service ≡ ok m) × (running_image service ≡ ok m.image.digest)

  abbrev note_of : Text → Option Text
  note_of service = compare_manifest manifest running_image service (manifest service)

  noted-other :
      (service other : Text) (o : Option Text) (d : Dict Text)
      → (other == service) ≡ false
      → lookup service (noted manifest running_image other o d) ≡ lookup service d
  noted-other service other none d differ = refl
  noted-other service other (some note) d differ = lookup-put_other service other note d differ

  noted-own :
      (service : Text) (o : Option Text) (d : Dict Text)
      → (lookup service d ≡ none) ⊎ (lookup service d ≡ o)
      → lookup service (noted manifest running_image service o d) ≡ o
  noted-own service none d (inl absent) = absent
  noted-own service none d (inr same) = same
  noted-own service (some note) d h = lookup-put service note d

  -- What is noted of a service stays.
  drift_of-stays :
      (service : Text) (services : List Text) (d : Dict Text)
      → lookup service d ≡ note_of service
      → lookup service (drift_of manifest running_image services d) ≡ note_of service
  unfolding drift_of
  drift_of-stays service [] d h = h
  drift_of-stays service (other ∷ services) d h =
      drift_of-stays service services _ (elim (Bool-cases (other == service)) [
        | inl same ↦
            subst
              (λ (t : Text).
                lookup service (noted manifest running_image t (note_of t) d) ≡ note_of service)
              (sym (==→eq other service same)) (noted-own service (note_of service) d (inr h))
        | inr differ ↦ noted-other service other (note_of other) d differ ∙ h
      ])

  drift_of-notes :
      (service : Text) (services : List Text) (d : Dict Text)
      → (lookup service d ≡ none) ⊎ (lookup service d ≡ note_of service)
      → In service services
      → lookup service (drift_of manifest running_image services d) ≡ note_of service
  unfolding drift_of
  drift_of-notes service [] d h m = absurd m
  drift_of-notes service (other ∷ services) d h (inl same) = drift_of-stays service services _ (
      subst
        (λ (t : Text).
          lookup service (noted manifest running_image t (note_of t) d) ≡ note_of service)
        same (noted-own service (note_of service) d h))
  drift_of-notes service (other ∷ services) d h (inr m) =
      drift_of-notes service services _
        (elim (Bool-cases (other == service)) [
          | inl same ↦ inr (
              subst
                (λ (t : Text).
                  lookup service (noted manifest running_image t (note_of t) d) ≡ note_of service)
                (sym (==→eq other service same)) (noted-own service (note_of service) d h))
          | inr differ ↦ elim h [
            | inl absent ↦ inl (noted-other service other (note_of other) d differ ∙ absent)
            | inr same ↦ inr (noted-other service other (note_of other) d differ ∙ same)
          ]
        ])
        m

  unnoted-IsInLine : (service : Text) → note_of service ≡ none → IsInLine service
  unnoted-IsInLine service = of_manifest (manifest service) refl
    where
      of_running :
          (m : Manifest) (r : Result Text)
          → manifest service ≡ ok m
          → running_image service ≡ r
          → compare_running manifest running_image m.image.digest r ≡ none
          → IsInLine service
      of_running m (err e) read runs h = cc
      of_running m (ok running) read runs h = elim (Bool-cases (running == m.image.digest)) [
        | inl same ↦ (m, read, runs ∙ ap (λ (t : Text). ok t) (==→eq running m.image.digest same))
        | inr differ ↦ cc (rw differ at h)
      ]

      of_manifest :
          (r : Result Manifest)
          → manifest service ≡ r
          → compare_manifest manifest running_image service r ≡ none
          → IsInLine service
      of_manifest (err e) read h = cc
      of_manifest (ok m) read h = of_running m (running_image service) read refl h

  IsInLine-unnoted : (service : Text) → IsInLine service → note_of service ≡ none
  IsInLine-unnoted service (m, read, runs) = rw (read, runs, ==_refl m.image.digest) refl

  -- Where the repository is read, Drift succeeds, and of each service of it, it reports none if and
  -- only if the manifest is readable and the host runs the digest that it pins.
  pub drift-IsInLine :
      (services : List Text)
      → (d : Dict Text) × (drift manifest running_image none (ok services) ≡ ok d)
        × ((service : Text) → In service services → (lookup service d ≡ none) ↔ IsInLine service)
  unfolding drift
  drift-IsInLine services = (
    drift_of manifest running_image services [],
    refl,
    λ service m.
        let same = drift_of-notes service services [] (inl (unfold lookup in refl)) m in
        (
          λ absent. unnoted-IsInLine service (sym same ∙ absent),
          λ line. same ∙ IsInLine-unnoted service line,
        ),
  )
