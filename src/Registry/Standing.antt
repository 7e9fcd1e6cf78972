-- ===== src/Registry/Standing.antt =====
-- What the watcher offers (internal/registry/registry.go) stands through failed polls.
use mathlib.Core.Path.{subst}
use snowdeploy.Base.{
  ℕ, suc, ◌+◌, Text, ◌≡◌, refl, sym, ap, ◌∙◌, ◌⊎◌, inl, inr, ◌==◌, ==→eq, length, Bool, false, List,
  [], ◌∷◌, ◌++◌, Option, none, some, Error, Result, ok, err, All, Bool-cases,
}
use snowdeploy.Base.Int.{ℤ}
use snowdeploy.Dict.{lookup, put, lookup-put, lookup-put_other}
use snowdeploy.Registry.{
  PollStatus, Watcher, new_watcher, latest_of, remember, failure_of, Report, report, poll,
  run_polls,
}

abbrev pub IsKnown : Text → Watcher → Type 0
IsKnown repo w = (digest : Text) × (lookup repo w.latest ≡ some digest)

-- A repository whose last poll succeeded has a digest on offer.
abbrev pub IsSound : Watcher → Type 0
IsSound w =
    (repo : Text) (s : PollStatus)
    → lookup repo w.polls ≡ some s
    → s.failure ≡ none
    → IsKnown repo w

pub new_watcher-IsSound : (interval : ℤ) → IsSound (new_watcher interval)
unfolding new_watcher lookup
new_watcher-IsSound interval repo s found fine = absurd (nothing found)
  where
    nothing : none ≡ some s → ⊥
    nothing e = cc

-- No digest on offer is lost.
abbrev pub Stands : Watcher → Watcher → Type 0
Stands w w' = (repo : Text) → IsKnown repo w → IsKnown repo w'

-- The registry answered a resolve of the repository with the digest.
abbrev pub Resolved : (ℕ → Text → Text → Result Text) → Text → Text → Text → Type 0
Resolved resolve_digest tag repo digest = (n : ℕ) × (resolve_digest n repo tag ≡ ok digest)

-- A digest on offer is one that was on offer before, or one that the registry answered since.
abbrev pub Offers : (ℕ → Text → Text → Result Text) → Watcher → Watcher → Type 0
Offers resolve_digest w w' =
    (repo digest : Text)
    → lookup repo w'.latest ≡ some digest
    → (lookup repo w.latest ≡ some digest) ⊎ Resolved resolve_digest w.tag repo digest

-- The report tells what the registry answered; behind a success the observer sees that very digest.
abbrev pub IsAnswered : Result Text → Report → Type 0
IsAnswered (ok digest) r = (r.failure ≡ none) × (r.sees ≡ some digest)
IsAnswered (err e) r = r.failure ≡ some e

abbrev pub IsSeen : (ℕ → Text → Text → Result Text) → Text → Report → Type 0
IsSeen resolve_digest tag r = (n : ℕ) × IsAnswered (resolve_digest n r.repository tag) r

remember_tag :
    (repo : Text) (r : Result Text) (at : ℕ) (w : Watcher) → (remember repo r at w).tag ≡ w.tag
unfolding remember
remember_tag repo (ok digest) at w = refl
remember_tag repo (err e) at w = refl

remember-Offers :
    (resolve_digest : ℕ → Text → Text → Result Text) (n : ℕ) (repo : Text) (r : Result Text)
    (at : ℕ) (w : Watcher)
    → resolve_digest n repo w.tag ≡ r
    → Offers resolve_digest w (remember repo r at w)
unfolding remember
remember-Offers resolve_digest n repo (err e) at w same other d h = inl h
remember-Offers resolve_digest n repo (ok digest) at w answered other d h =
    elim (Bool-cases (repo == other)) [
      | inl same ↦ inr (
        n,
        subst (λ (k : Text). resolve_digest n k w.tag ≡ ok d) (==→eq repo other same)
            (answered
              ∙ ap ok (
                  some_equal (
                    sym (lookup-put repo digest w.latest)
                    ∙ ap (λ (k : Text). lookup k (put repo digest w.latest)) (==→eq repo other same)
                    ∙ h))),
      )
      | inr differ ↦ inl (sym (lookup-put_other other repo digest w.latest differ) ∙ h)
    ]
  where
    some_equal : {a b : Text} → some a ≡ some b → a ≡ b
    some_equal e = cc

remember-Stands :
    (repo : Text) (r : Result Text) (at : ℕ) (w : Watcher) → Stands w (remember repo r at w)
unfolding remember
remember-Stands repo (err e) at w other known = known
remember-Stands repo (ok digest) at w other (d, e) = elim (Bool-cases (repo == other)) [
  | inl same ↦ (
    digest,
    ap (λ (k : Text). lookup k (put repo digest w.latest)) (sym (==→eq repo other same))
        ∙ lookup-put repo digest w.latest,
  )
  | inr differ ↦ (d, lookup-put_other other repo digest w.latest differ ∙ e)
]

abbrev failure_at : Option PollStatus → Option Error
failure_at none = none
failure_at (some s) = s.failure

failed : (e : Error) (o : Option Error) → some e ≡ o → o ≡ none → ⊥
failed e o h k = cc

remember-IsSound :
    (repo : Text) (r : Result Text) (at : ℕ) (w : Watcher)
    → IsSound w
    → IsSound (remember repo r at w)
unfolding remember
remember-IsSound repo r at w sound other s found fine = elim (Bool-cases (repo == other)) [
  | inl same ↦
      subst (λ (k : Text). IsKnown k (remember repo r at w)) (==→eq repo other same)
        (own r (
          ap (λ (k : Text). lookup k (remember repo r at w).polls) (==→eq repo other same) ∙ found))
  | inr differ ↦ remember-Stands repo r at w other (sound other s (kept r differ ∙ found) fine)
]
  where
    own :
        (q : Result Text)
        → lookup repo (remember repo q at w).polls ≡ some s
        → IsKnown repo (remember repo q at w)
    own (ok digest) f = (digest, lookup-put repo digest w.latest)
    own (err e) f = absurd (
        failed e s.failure
          (ap failure_at (sym (lookup-put repo (record { at = at; failure = some e }) w.polls) ∙ f))
          fine)

    kept :
        (q : Result Text)
        → (repo == other) ≡ false
        → lookup other w.polls ≡ lookup other (remember repo q at w).polls
    kept (ok digest) differ = sym (lookup-put_other other repo _ w.polls differ)
    kept (err e) differ = sym (lookup-put_other other repo _ w.polls differ)

-- What polls leave: a sound watcher with the same tag that lost no digest and offers only what the
-- registry answered, and reports that are true of it.
pub record IsPolled (resolve_digest : ℕ → Text → Text → Result Text) (w : Watcher)
    (out : Watcher × List Report) : Type 0 where
  pub same_tag : out.0.tag ≡ w.tag
  pub sound : IsSound out.0
  pub stands : Stands w out.0
  pub offers : Offers resolve_digest w out.0
  pub seen : All (IsSeen resolve_digest w.tag) out.1

unpolled :
    (resolve_digest : ℕ → Text → Text → Result Text) (w : Watcher)
    → IsSound w
    → IsPolled resolve_digest w (w, [])
unpolled resolve_digest w s = record {
  same_tag = refl;
  sound = s;
  stands = λ repo k. k;
  offers = λ repo d h. inl h;
  seen = tt;
}

-- What two runs in a row leave.
in_turn :
    (resolve_digest : ℕ → Text → Text → Result Text) (w : Watcher)
    (first later : Watcher × List Report)
    → IsPolled resolve_digest w first
    → IsPolled resolve_digest first.0 later
    → IsPolled resolve_digest w (later.0, first.1 ++ later.1)
in_turn resolve_digest w first later p q = record {
  same_tag = q.same_tag ∙ p.same_tag;
  sound = q.sound;
  stands = λ repo k. q.stands repo (p.stands repo k);
  offers = λ repo d h. elim (q.offers repo d h) [
    | inl before ↦ p.offers repo d before
    | inr (n, answered) ↦
        inr (n, ap (λ (t : Text). resolve_digest n repo t) (sym p.same_tag) ∙ answered)
  ];
  seen =
      All-append first.1 later.1 p.seen
        (subst (λ (t : Text). All (IsSeen resolve_digest t) later.1) p.same_tag q.seen);
}
  where
    All-append :
        (rs ts : List Report)
        → All (IsSeen resolve_digest w.tag) rs
        → All (IsSeen resolve_digest w.tag) ts
        → All (IsSeen resolve_digest w.tag) (rs ++ ts)
    All-append [] ts h k = k
    All-append (r ∷ rs) ts h k = (h.0, All-append rs ts h.1 k)

module _ (is_done : ℕ → Bool) (resolve_digest : ℕ → Text → Text → Result Text) (now : ℕ → ℕ) where
  report-IsSeen :
      (n : ℕ) (repo : Text) (w : Watcher)
      → IsSeen resolve_digest w.tag (report is_done resolve_digest now n repo w)
  unfolding remember latest_of
  report-IsSeen n repo w = (n, seen (resolve_digest n repo w.tag))
    where
      seen :
          (r : Result Text)
          → IsAnswered r (record {
            repository = repo;
            failure = failure_of r;
            sees = latest_of (remember repo r (now n) w) repo;
          })
      seen (ok digest) = (refl, lookup-put repo digest w.latest)
      seen (err e) = refl

  -- One resolve, remembered and reported.
  one-IsPolled :
      (n : ℕ) (repo : Text) (w : Watcher)
      → IsSound w
      → IsPolled resolve_digest w (
        remember repo (resolve_digest n repo w.tag) (now n) w,
        report is_done resolve_digest now n repo w ∷ [],
      )
  one-IsPolled n repo w sound = record {
    same_tag = remember_tag repo _ (now n) w;
    sound = remember-IsSound repo _ (now n) w sound;
    stands = remember-Stands repo _ (now n) w;
    offers = remember-Offers resolve_digest n repo _ (now n) w refl;
    seen = (report-IsSeen n repo w, tt);
  }

  poll-IsPolled :
      (n : ℕ) (repos : List Text) (w : Watcher)
      → IsSound w
      → IsPolled resolve_digest w (poll is_done resolve_digest now n repos w)
  unfolding poll
  poll-IsPolled n [] w sound = unpolled resolve_digest w sound
  poll-IsPolled n (repo ∷ repos) w sound = elim (Bool-cases (is_done n)) [
    | inl done ↦ rw done (unpolled resolve_digest w sound)
    | inr going ↦
        let first = one-IsPolled n repo w sound in
        rw going (
          in_turn resolve_digest w _ (poll is_done resolve_digest now (n + 1) repos _) first
            (poll-IsPolled (n + 1) repos _ first.sound))
  ]

  -- Through any polls of any lists of repositories, whatever the registry answers, fails or is
  -- interrupted: no repository loses its digest on offer; a digest on offer was on offer before or is
  -- one that the registry answered for that repository; a repository whose last poll succeeded has one;
  -- and an observer is told what the registry answered, and behind a success already sees that very
  -- digest.
  pub run_polls-IsPolled :
      (n : ℕ) (ticks : List (List Text)) (w : Watcher)
      → IsSound w
      → IsPolled resolve_digest w (run_polls is_done resolve_digest now n ticks w)
  unfolding run_polls
  run_polls-IsPolled n [] w sound = unpolled resolve_digest w sound
  run_polls-IsPolled n (repos ∷ ticks) w sound =
      let first = poll-IsPolled n repos w sound in
      in_turn resolve_digest w (poll is_done resolve_digest now n repos w) _ first
        (run_polls-IsPolled (n + suc (length repos)) ticks _ first.sound)
