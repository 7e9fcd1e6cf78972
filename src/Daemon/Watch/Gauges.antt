-- ===== src/Daemon/Watch/Gauges.antt =====
-- What the drift gauges say of a service (cmd/snowdeployd/main.go, internal/api/metrics.go,
-- internal/deploy/engine.go).
use mathlib.Core.Path.{subst}
use snowdeploy.Base.{
  ℕ, Text, ◌≡◌, refl, sym, ap, ◌∙◌, ◌↔◌, inl, inr, ◌==◌, ◌⊎◌, ==→eq, ==→ne, ==_iff, true, List, [],
  ◌∷◌, In, Option, none, some, Result, ok, err, Bool-cases,
}
use snowdeploy.Dict.{Dict, lookup, put, lookup-put, lookup-put_other}
use snowdeploy.Manifest.Defs.{Manifest}
use snowdeploy.Deploy.Drift.Notes.{IsInLine, drift-IsInLine}
use snowdeploy.Api.Metrics.{Metrics, gauge, set_known, set_drifting, set_drift}
use snowdeploy.Daemon.Watch.{known_of, republish, drift_checked, check_drift}

module _ (service : Text) where
  abbrev gauged : Option Text → Option ℕ → Option ℕ
  gauged none before = before
  gauged (some detail) before = some 1

  gauged_one : (o : Option Text) → gauged o (some 1) ≡ some 1
  gauged_one none = refl
  gauged_one (some detail) = refl

  lookup-set_drifting :
      (drifting : Dict Text) (gauges : Dict ℕ)
      → lookup service (set_drifting drifting gauges)
        ≡ gauged (lookup service drifting) (lookup service gauges)
  unfolding set_drifting lookup
  lookup-set_drifting [] gauges = refl
  lookup-set_drifting ((other, detail) ∷ drifting) gauges = elim (Bool-cases (other == service)) [
    | inl same ↦ rw same (
        lookup-set_drifting drifting (put other 1 gauges)
        ∙ ap (λ (o : Option ℕ). gauged (lookup service drifting) o)
            (subst (λ (t : Text). lookup service (put t 1 gauges) ≡ some 1)
              (sym (==→eq other service same)) (lookup-put service 1 gauges))
        ∙ gauged_one (lookup service drifting))
    | inr differ ↦ rw differ (
        lookup-set_drifting drifting (put other 1 gauges)
        ∙ ap (λ (o : Option ℕ). gauged (lookup service drifting) o)
            (lookup-put_other service other 1 gauges differ))
  ]

  module _ (drifting : Dict Text) where
    abbrev own_gauge : Option ℕ
    own_gauge = some (gauge (lookup service drifting))

    lookup-put-gauge :
        (other : Text) (gauges : Dict ℕ)
        → (other == service) ≡ true
        → lookup service (put other (gauge (lookup other drifting)) gauges) ≡ own_gauge
    lookup-put-gauge other gauges same =
        subst (λ (t : Text). lookup service (put t (gauge (lookup t drifting)) gauges) ≡ own_gauge)
          (sym (==→eq other service same))
          (lookup-put service (gauge (lookup service drifting)) gauges)

    set_known-stays :
        (known : List Text) (gauges : Dict ℕ)
        → lookup service gauges ≡ own_gauge
        → lookup service (set_known drifting known gauges) ≡ own_gauge
    unfolding set_known
    set_known-stays [] gauges h = h
    set_known-stays (other ∷ known) gauges h =
        set_known-stays known _ (elim (Bool-cases (other == service)) [
          | inl same ↦ lookup-put-gauge other gauges same
          | inr differ ↦ lookup-put_other service other _ gauges differ ∙ h
        ])

    set_known-sets :
        (known : List Text) (gauges : Dict ℕ)
        → In service known
        → lookup service (set_known drifting known gauges) ≡ own_gauge
    unfolding set_known
    set_known-sets [] gauges m = absurd m
    set_known-sets (other ∷ known) gauges (inl same) =
        set_known-stays known _
          (lookup-put-gauge other gauges ((==_iff other service).1 (sym same)))
    set_known-sets (other ∷ known) gauges (inr m) = set_known-sets known _ m

    gauge_zero : (o : Option Text) → (gauged o (some (gauge o)) ≡ some 0) ↔ (o ≡ none)
    gauge_zero none = (λ h. refl, λ h. refl)
    gauge_zero (some detail) = (λ h. absurd (one_zero h), λ h. absurd (some-none h))
      where
        one_zero : ◌≡◌ {A = Option ℕ} (some 1) (some 0) → ⊥
        one_zero h = cc

        some-none : some detail ≡ none → ⊥
        some-none h = cc

    set_drift-gauges :
        (known : List Text) (m : Metrics)
        → In service known
        → (lookup service (set_drift drifting known m).drift ≡ some 0)
          ↔ (lookup service drifting ≡ none)
    unfolding set_drift
    set_drift-gauges known m there =
        let same : lookup service (set_drift drifting known m).drift
            ≡ gauged (lookup service drifting) own_gauge =
          lookup-set_drifting drifting (set_known drifting known m.drift)
          ∙ ap (λ (o : Option ℕ). gauged (lookup service drifting) o)
              (set_known-sets known m.drift there) in
        let iff = gauge_zero (lookup service drifting) in
        (λ h. iff.0 (sym same ∙ h), λ h. same ∙ iff.1 h)

-- The second listing names the service.
abbrev pub Names : Result (List Text) → Text → Type 0
Names (err e) service = ⊥
Names (ok known) service = In service known

-- What a check tells of a service, from the gauge before to the gauge after: if the second listing
-- names it, 0 exactly for a service in line; else the gauge of a service in line stays, and that of a
-- drifting one is 1.
abbrev pub IsTold : Result (List Text) → Text → Type 0 → Option ℕ → Option ℕ → Type 0
IsTold known service InLine before gauge_after =
    (Names known service × ((gauge_after ≡ some 0) ↔ InLine))
    ⊎ ((¬ Names known service)
        × ((InLine × (gauge_after ≡ before)) ⊎ ((¬ InLine) × (gauge_after ≡ some 1))))

named_or_not : (service : Text) (known : List Text) → In service known ⊎ (¬ In service known)
named_or_not service [] = inr (λ m. absurd m)
named_or_not service (other ∷ known) = elim (named_or_not service known) [
  | inl m ↦ inl (inr m)
  | inr absent ↦ elim (Bool-cases (other == service)) [
    | inl same ↦ inl (inl (sym (==→eq other service same)))
    | inr differ ↦ inr (elim [ inl e ↦ ==→ne other service differ (sym e) | inr m ↦ absent m ])
  ]
]

set_known-leaves :
    (service : Text) (drifting : Dict Text) (known : List Text) (gauges : Dict ℕ)
    → ¬ In service known
    → lookup service (set_known drifting known gauges) ≡ lookup service gauges
unfolding set_known
set_known-leaves service drifting [] gauges absent = refl
set_known-leaves service drifting (other ∷ known) gauges absent =
    elim (Bool-cases (other == service)) [
      | inl same ↦ absurd (absent (inl (sym (==→eq other service same))))
      | inr differ ↦
          set_known-leaves service drifting known _ (λ m. absent (inr m))
          ∙ lookup-put_other service other _ gauges differ
    ]

set_drift-leaves :
    (service : Text) (drifting : Dict Text) (known : List Text) (m : Metrics)
    → ¬ In service known
    → lookup service (set_drift drifting known m).drift
      ≡ gauged service (lookup service drifting) (lookup service m.drift)
unfolding set_drift
set_drift-leaves service drifting known m absent =
    lookup-set_drifting service drifting (set_known drifting known m.drift)
    ∙ ap (λ (o : Option ℕ). gauged service (lookup service drifting) o)
        (set_known-leaves service drifting known m.drift absent)

module _ (service : Text) (InLine : Type 0) (d : Dict Text) (m : Metrics)
    (line : (lookup service d ≡ none) ↔ InLine) where
  unnamed :
      (names : List Text)
      → ¬ In service names
      → (o : Option Text) → lookup service d ≡ o
      → (InLine × (lookup service (set_drift d names m).drift ≡ lookup service m.drift))
        ⊎ ((¬ InLine) × (lookup service (set_drift d names m).drift ≡ some 1))
  unnamed names absent none e = inl (
    line.0 e,
    set_drift-leaves service d names m absent
        ∙ ap (λ (o : Option Text). gauged service o (lookup service m.drift)) e,
  )
  unnamed names absent (some note) e = inr (
    λ l. none-some (sym (line.1 l) ∙ e),
    set_drift-leaves service d names m absent
        ∙ ap (λ (o : Option Text). gauged service o (lookup service m.drift)) e,
  )
    where
      none-some : none ≡ some note → ⊥
      none-some h = cc

  republish-IsTold :
      (known : Result (List Text))
      → IsTold known service InLine
          (lookup service m.drift)
          (lookup service (set_drift d (known_of known) m).drift)
  republish-IsTold (err e) = inr (λ h. absurd h, unnamed [] (λ h. absurd h) (lookup service d) refl)
  republish-IsTold (ok names) = elim (named_or_not service names) [
    | inl there ↦
        let gauges = set_drift-gauges service d names m there in
        inl (there, (λ h. line.0 (gauges.0 h), λ l. gauges.1 (line.1 l)))
    | inr absent ↦ inr (absent, unnamed names absent (lookup service d) refl)
  ]

-- Behind a check for drift whose sync and whose listing of the services succeeded, whatever the second
-- listing answered, for each service of the first: if the second listing names it, its gauge is 0 if
-- and only if its manifest is readable and the host runs the digest that it pins; if the second
-- listing failed or does not name it, its gauge is 1 where it drifts, and is left as it was where it
-- does not.
pub check_drift-gauges :
    (services : List Text) (manifest : Text → Result Manifest) (running_image : Text → Result Text)
    (known : Result (List Text)) (m : Metrics) (service : Text)
    → In service services
    → IsTold known service
        (IsInLine manifest running_image service)
        (lookup service m.drift)
        (lookup service (check_drift (ok services) manifest running_image none known m).drift)
unfolding check_drift republish
check_drift-gauges services manifest running_image known m service there =
    let (d, drifts, notes) = drift-IsInLine manifest running_image services in
    subst
      (λ (r : Result (Dict Text)).
        IsTold known service (IsInLine manifest running_image service) (lookup service m.drift)
          (lookup service (drift_checked (ok services) manifest known r m).drift))
      (sym drifts)
      (republish-IsTold service (IsInLine manifest running_image service) d m (notes service there)
        known)
