-- ===== src/Api/Metrics/Marks.antt =====
-- What the metrics remember of each run (internal/api/metrics.go).
use snowdeploy.Base.{
  ℕ, ◌≡◌, ◌≢◌, refl, ap, ◌∙◌, inl, inr, eqb, eqb_iff, true, false, List, [], ◌∷◌, Option, none,
  some, Bool-cases, if◌then◌else◌, arith,
}
use snowdeploy.Effect.{Event}
use snowdeploy.Journal.Defs.{is_terminal}
use snowdeploy.Api.Metrics.{
  StateMark, Metrics, new_metrics, mark_of, delete_mark, moment, marked, observe,
}

abbrev pub observe_all : (Event → ℕ) → List Event → Metrics → Metrics
observe_all now [] m = m
observe_all now (ev ∷ evs) m = observe_all now evs (observe (now ev) ev m)

-- The newest event of a run, the newest last.
abbrev pub last_or : Event → Option Event → Event
last_or ev none = ev
last_or ev (some later) = later

abbrev pub newest_of : ℕ → List Event → Option Event
newest_of id [] = none
newest_of id (ev ∷ evs) =
    let later = newest_of id evs in if eqb ev.journal_id id then some (last_or ev later) else later

-- What is remembered behind an event of the run.
abbrev pub mark_behind : (Event → ℕ) → Event → Option StateMark
mark_behind now ev =
    if is_terminal ev.state
    then none
    else some (record { state = ev.state; at = moment (now ev) ev })

mark_of-delete_mark :
    (id : ℕ) (marks : List (ℕ × StateMark)) → mark_of id (delete_mark id marks) ≡ none
unfolding mark_of delete_mark
mark_of-delete_mark id [] = refl
mark_of-delete_mark id ((j, mark) ∷ marks) = elim (Bool-cases (eqb j id)) [
  | inl hit ↦ rw hit (mark_of-delete_mark id marks)
  | inr miss ↦ rw miss (rw miss (mark_of-delete_mark id marks))
]

mark_of-delete_other :
    (id other : ℕ) (marks : List (ℕ × StateMark))
    → eqb other id ≡ false
    → mark_of id (delete_mark other marks) ≡ mark_of id marks
unfolding mark_of delete_mark
mark_of-delete_other id other [] differ = refl
mark_of-delete_other id other ((j, mark) ∷ marks) differ = elim (Bool-cases (eqb j other)) [
  | inl hit ↦
      let miss : eqb j id ≡ false = ground (arith, hit, differ) in
      rw (hit, miss) (mark_of-delete_other id other marks differ)
  | inr kept ↦ rw kept (
      ap (λ (o : Option StateMark). if eqb j id then some mark else o)
        (mark_of-delete_other id other marks differ))
]

module _ (now : ℕ) (id : ℕ) (ev : Event) where
  marked-own :
      (marks : List (ℕ × StateMark))
      → eqb ev.journal_id id ≡ true
      → mark_of id (marked now ev marks) ≡ (
          if is_terminal ev.state
          then none
          else some (record { state = ev.state; at = moment now ev }))
  unfolding mark_of
  marked-own marks own = elim (Bool-cases (is_terminal ev.state)) [
    | inl over ↦ rw over (
        ap (λ (j : ℕ). mark_of id (delete_mark j marks)) ((eqb_iff ev.journal_id id).0 own)
        ∙ mark_of-delete_mark id marks)
    | inr running ↦ rw running (rw own refl)
  ]

  marked-other :
      (marks : List (ℕ × StateMark))
      → eqb ev.journal_id id ≡ false
      → mark_of id (marked now ev marks) ≡ mark_of id marks
  unfolding mark_of
  marked-other marks other = elim (Bool-cases (is_terminal ev.state)) [
    | inl over ↦ rw over (mark_of-delete_other id ev.journal_id marks other)
    | inr running ↦ rw running (rw other (mark_of-delete_other id ev.journal_id marks other))
  ]

  observe-numbered :
      (m : Metrics)
      → eqb ev.journal_id 0 ≡ false
      → (observe now ev m).last_state ≡ marked now ev m.last_state
  unfolding observe
  observe-numbered m h = rw h refl

  observe-unnumbered : (m : Metrics) → eqb ev.journal_id 0 ≡ true → observe now ev m ≡ m
  unfolding observe
  observe-unnumbered m h = rw h refl

module _ (now : Event → ℕ) (id : ℕ) (numbered : id ≢ 0) where
  observe-own :
      (ev : Event) (m : Metrics)
      → eqb ev.journal_id id ≡ true
      → mark_of id (observe (now ev) ev m).last_state ≡ mark_behind now ev
  observe-own ev m own =
      let numbered_too : eqb ev.journal_id 0 ≡ false = ground (arith, own, numbered) in
      ap (λ (marks : List (ℕ × StateMark)). mark_of id marks)
        (observe-numbered (now ev) id ev m numbered_too)
      ∙ marked-own (now ev) id ev m.last_state own

  observe-other :
      (ev : Event) (m : Metrics)
      → eqb ev.journal_id id ≡ false
      → mark_of id (observe (now ev) ev m).last_state ≡ mark_of id m.last_state
  observe-other ev m other = elim (Bool-cases (eqb ev.journal_id 0)) [
    | inl unnumbered ↦
        ap (λ (n : Metrics). mark_of id n.last_state)
          (observe-unnumbered (now ev) id ev m unnumbered)
    | inr h ↦
        ap (λ (marks : List (ℕ × StateMark)). mark_of id marks)
          (observe-numbered (now ev) id ev m h)
        ∙ marked-other (now ev) id ev m.last_state other
  ]

  -- What is remembered behind the events, from what was before.
  abbrev remembered : Option StateMark → Option Event → Option StateMark
  remembered before none = before
  remembered before (some ev) = mark_behind now ev

  observe_all-remembers :
      (evs : List Event) (m : Metrics)
      → mark_of id (observe_all now evs m).last_state
        ≡ remembered (mark_of id m.last_state) (newest_of id evs)
  observe_all-remembers [] m = refl
  observe_all-remembers (ev ∷ evs) m = elim (Bool-cases (eqb ev.journal_id id)) [
    | inl own ↦ rw own (
        observe_all-remembers evs (observe (now ev) ev m)
        ∙ ap (λ (b : Option StateMark). remembered b (newest_of id evs)) (observe-own ev m own)
        ∙ of_later (newest_of id evs) ev)
    | inr other ↦ rw other (
        observe_all-remembers evs (observe (now ev) ev m)
        ∙ ap (λ (b : Option StateMark). remembered b (newest_of id evs)) (observe-other ev m other))
  ]
    where
      of_later :
          (later : Option Event) (ev : Event)
          → remembered (mark_behind now ev) later ≡ mark_behind now (last_or ev later)
      of_later none ev = refl
      of_later (some e) ev = refl

-- Behind any events a run with an id is remembered exactly if the newest event of that run is not
-- terminal, with the state of that event and the time of it, or of its observation where it has none:
-- a run that ended is forgotten, and no other run changes what is remembered of it.
observe_all-newest :
    (now : Event → ℕ) (id : ℕ) (evs : List Event)
    → id ≢ 0
    → mark_of id (observe_all now evs new_metrics).last_state
      ≡ (elim (newest_of id evs) [ none ↦ none | some ev ↦ mark_behind now ev ])
unfolding mark_of new_metrics
observe_all-newest now id evs numbered =
    observe_all-remembers now id numbered evs new_metrics ∙ of_newest (newest_of id evs)
  where
    of_newest :
        (o : Option Event)
        → remembered now id numbered none o
          ≡ (elim o [ none ↦ none | some ev ↦ mark_behind now ev ])
    of_newest none = refl
    of_newest (some ev) = refl
