-- ===== src/Gitops/Mirror/Standing.antt =====
-- What the mirror says of itself, over all its syncs (internal/gitops/repo.go).
use mathlib.Core.Path.{subst}
use snowdeploy.Base.{
  Text, ◌≡◌, refl, sym, ◌↔◌, ◌⊎◌, inl, inr, Bool, true, false, any, In, List, [], ◌∷◌, Option, none,
  some, Error, Sentinel, same_sentinel, errors_is, Result, ok, err, Bool-cases, arith,
}
use snowdeploy.Gitops.Mirror.{
  never_synced, credential_unreadable, remote_unreachable, classify_sync_failure, RepoConfig, Repo,
  new_repo, sync, synced_or_reason, sync_state, required, require_synced,
}

-- What the fetches of all the syncs so far answered, the newest first.
abbrev pub Attempts : Type 0
Attempts = List (Result Text)

abbrev pub after : Attempts → RepoConfig → Repo
after [] cfg = new_repo cfg
after (a ∷ attempts) cfg = (sync a (after attempts cfg)).0

-- Some sync read the configuration repository.
abbrev pub HasSucceeded : Attempts → Type 0
HasSucceeded [] = ⊥
HasSucceeded (ok head ∷ attempts) = Unit
HasSucceeded (err e ∷ attempts) = HasSucceeded attempts

-- The one sentence for a failed fetch, which holds nothing of what the fetch said.
abbrev pub IsClassified : Error → Option Error → Type 0
IsClassified e reason =
    (In Sentinel.credential_unavailable e.chain × (reason ≡ some credential_unreadable))
    ⊎ (¬ (In Sentinel.credential_unavailable e.chain) × (reason ≡ some remote_unreachable))

-- Why the mirror is not current, as a function of the newest attempt alone.
abbrev pub IsReason : Attempts → Option Error → Type 0
IsReason [] reason = reason ≡ some never_synced
IsReason (ok head ∷ attempts) reason = reason ≡ none
IsReason (err e ∷ attempts) reason = IsClassified e reason

-- The state of the mirror is the abstract one: whether any sync succeeded, and why the last failed.
pub record Refines (attempts : Attempts) (r : Repo) : Type 0 where
  pub synced_iff : ((sync_state r).0 ≡ true) ↔ HasSucceeded attempts
  pub reason : IsReason attempts (sync_state r).1
  pub reads : HasSucceeded attempts → require_synced r ≡ none
  pub refuses : ¬ (HasSucceeded attempts) → require_synced r ≡ (sync_state r).1

same_sentinel-eq : (s t : Sentinel) → same_sentinel s t ≡ true → s ≡ t
same_sentinel-eq s t h = ground arith

same_sentinel_refl : (s : Sentinel) → same_sentinel s s ≡ true
same_sentinel_refl s = ground arith

any-In :
    (s : Sentinel) (chain : List Sentinel) → any (λ t. same_sentinel t s) chain ≡ true → In s chain
any-In s [] h = cc
any-In s (t ∷ chain) h = elim (Bool-cases (same_sentinel t s)) [
  | inl same ↦ inl (sym (same_sentinel-eq t s same))
  | inr other ↦ inr (any-In s chain (rw other at h))
]

In-any :
    (s : Sentinel) (chain : List Sentinel)
    → any (λ t. same_sentinel t s) chain ≡ false
    → ¬ (In s chain)
In-any s [] h m = m
In-any s (t ∷ chain) h m = elim (Bool-cases (same_sentinel t s)) [
  | inl same ↦ cc (rw same at h)
  | inr other ↦ elim m [
    | inl e ↦ cc (subst (λ (u : Sentinel). same_sentinel u s ≡ true) e (same_sentinel_refl s))
    | inr later ↦ In-any s chain (rw other at h) later
  ]
]

classify_sync_failure-IsClassified : (e : Error) → IsClassified e (some (classify_sync_failure e))
unfolding classify_sync_failure
classify_sync_failure-IsClassified e =
    elim (Bool-cases (errors_is e Sentinel.credential_unavailable)) [
      | inl sealed ↦ rw sealed (inl (any-In Sentinel.credential_unavailable e.chain sealed, refl))
      | inr other ↦ rw other (inr (In-any Sentinel.credential_unavailable e.chain other, refl))
    ]

abbrev recorded : Attempts → Option Error
recorded [] = none
recorded (ok head ∷ attempts) = none
recorded (err e ∷ attempts) = some (classify_sync_failure e)

after-recorded :
    (attempts : Attempts) (cfg : RepoConfig) → (after attempts cfg).failure ≡ recorded attempts
unfolding new_repo sync
after-recorded [] cfg = refl
after-recorded (ok head ∷ attempts) cfg = refl
after-recorded (err e ∷ attempts) cfg = refl

after-synced :
    (attempts : Attempts) (cfg : RepoConfig)
    → ((after attempts cfg).synced ≡ true) ↔ HasSucceeded attempts
unfolding new_repo sync
after-synced [] cfg = (λ h. cc, λ h. absurd h)
after-synced (ok head ∷ attempts) cfg = (λ h. tt, λ h. refl)
after-synced (err e ∷ attempts) cfg = after-synced attempts cfg

-- What the fields say, once the state is computed from them.
record Says (attempts : Attempts) (synced : Bool) (failure : Option Error) : Type 0 where
  synced_iff : ((synced_or_reason synced failure).0 ≡ true) ↔ HasSucceeded attempts
  reason : IsReason attempts (synced_or_reason synced failure).1
  reads : HasSucceeded attempts → required synced failure ≡ none
  refuses :
      ¬ (HasSucceeded attempts) → required synced failure ≡ (synced_or_reason synced failure).1

recorded-Says :
    (attempts : Attempts) (synced : Bool)
    → (synced ≡ true) ↔ HasSucceeded attempts
    → Says attempts synced (recorded attempts)
recorded-Says [] true iff = absurd (iff.0 refl)
recorded-Says [] false iff = record {
  synced_iff = iff;
  reason = refl;
  reads = λ h. absurd h;
  refuses = λ h. refl;
}
recorded-Says (ok head ∷ attempts) true iff = record {
  synced_iff = iff;
  reason = refl;
  reads = λ h. refl;
  refuses = λ h. absurd (h tt);
}
recorded-Says (ok head ∷ attempts) false iff = cc (iff.1 tt)
recorded-Says (err e ∷ attempts) true iff = record {
  synced_iff = iff;
  reason = classify_sync_failure-IsClassified e;
  reads = λ h. refl;
  refuses = λ h. absurd (h (iff.0 refl));
}
recorded-Says (err e ∷ attempts) false iff = record {
  synced_iff = iff;
  reason = classify_sync_failure-IsClassified e;
  reads = λ h. cc (iff.1 h);
  refuses = λ h. refl;
}

-- Over any syncs, whatever the fetches answer, the mirror is its abstract state: it counts as synced
-- exactly if some sync succeeded; its reason is the newest attempt's, in one of three fixed
-- sentences that hold nothing of a fetch's error; and reads are open from the first success on,
-- later failures included, and until then refused with that reason.
pub after-Refines : (attempts : Attempts) (cfg : RepoConfig) → Refines attempts (after attempts cfg)
unfolding sync_state require_synced
after-Refines attempts cfg =
    let says =
      subst (λ (f : Option Error). Says attempts (after attempts cfg).synced f)
        (sym (after-recorded attempts cfg))
        (recorded-Says attempts (after attempts cfg).synced (after-synced attempts cfg)) in
    record {
      synced_iff = says.synced_iff;
      reason = says.reason;
      reads = says.reads;
      refuses = says.refuses;
    }
