-- ===== src/Revision/Wait.antt =====
-- Lookup of internal/revision/revision.go: the wait for a fill. What other callers and the fills do to
-- the cache while a round waits, the clock, and whether the context ended the wait, are given for each
-- round.
use mathlib.Core.Path.{subst}
use snowdeploy.Base.{
  ℕ, ◌≤◌, ◌<◌, Text, lit, ◌≡◌, ◌≢◌, refl, sym, ap, Bool-cases, ◌⊎◌, inl, inr, Bool, true, ◌++◌,
  Option, none, some, arith, if◌then◌else◌,
}
use snowdeploy.Polling.{Round, stops, goes, poll_loop, poll_loop_ends}
use snowdeploy.Revision.{Revision, CachedSource, Verdict, decided, waits, cached_or_filling}

-- What happens in the rounds.
pub record Rounds : Type 0 where
  pub now : ℕ → ℕ
  pub meanwhile : ℕ → CachedSource → CachedSource
  pub has_ended : ℕ → Bool

abbrev pub Found : Type 0
Found = Option Revision × CachedSource

module _ (key : Text) (r : Rounds) where
  abbrev pub waited : ℕ → Verdict → CachedSource → Round Found CachedSource
  waited k (decided answer) c = stops (answer, c)
  waited k waits c = if r.has_ended k then stops (none, c) else goes (r.meanwhile k c)

  unfoldable pub lookup_round : ℕ → CachedSource → Round Found CachedSource
  unfolding cached_or_filling
  lookup_round k c = let (verdict, c') = cached_or_filling key (r.now k) c in waited k verdict c'

unfoldable pub lookup_revision : Text → Text → Rounds → ℕ → CachedSource → Option Found
unfolding poll_loop lookup_round
lookup_revision repository digest r fuel c =
    poll_loop (lookup_round (repository ++ lit "@" ++ digest) r) fuel 0 c

-- The answer is nothing, or what the cache had decided in that round.
abbrev pub IsFoundAt : Text → Rounds → ℕ → Found → Type 0
IsFoundAt key r k (answer, c') =
    (answer ≡ none)
    ⊎ ((c : CachedSource) × (cached_or_filling key (r.now k) c ≡ (decided answer, c')))

module _ (key : Text) (r : Rounds) (k : ℕ) (c : CachedSource) where
  round_stops : (found : Found) → lookup_round key r k c ≡ stops found → IsFoundAt key r k found
  unfolding lookup_round
  round_stops found h = of_verdict (cached_or_filling key (r.now k) c) refl h
    where
      of_verdict :
          (v : Verdict × CachedSource)
          → cached_or_filling key (r.now k) c ≡ v
          → waited key r k v.0 v.1 ≡ stops found
          → IsFoundAt key r k found
      of_verdict (decided answer, c') e h =
          let same : (answer, c') ≡ found = cc in
          subst (λ (f : Found). IsFoundAt key r k f) same (inr (c, e))
      of_verdict (waits, c') e h = elim (Bool-cases (r.has_ended k)) [
        | inl over ↦
            let given_up : ◌≡◌ {A = Round Found CachedSource} (stops (none, c')) (stops found) =
              rw over at h in
            let same : (none, c') ≡ found = cc in inl (sym (ap (λ (f : Found). f.0) same))
        | inr running ↦ let goes_on : goes (r.meanwhile k c') ≡ stops found = rw running at h in cc
      ]

  round_ends : r.has_ended k ≡ true → (c' : CachedSource) → lookup_round key r k c ≢ goes c'
  unfolding lookup_round
  round_ends ended c' h = of_verdict (cached_or_filling key (r.now k) c) h
    where
      of_verdict : (v : Verdict × CachedSource) → waited key r k v.0 v.1 ≡ goes c' → ⊥
      of_verdict (decided answer, c1) h = cc
      of_verdict (waits, c1) h =
          let given_up : ◌≡◌ {A = Round Found CachedSource} (stops (none, c1)) (goes c') =
            rw ended at h in
          cc

-- Whatever other callers and the fills do to the cache meanwhile, Lookup returns by the round in which
-- its context ends, and answers nothing or what the cache decided in the round in which it returns.
lookup_revision-returns :
    (repository digest : Text) (r : Rounds) (c : CachedSource) (m fuel : ℕ)
    → r.has_ended m ≡ true
    → m < fuel
    → (found : Found) × (lookup_revision repository digest r fuel c ≡ some found)
      × ((j : ℕ) × (j ≤ m) × IsFoundAt (repository ++ lit "@" ++ digest) r j found)
unfolding lookup_revision
lookup_revision-returns repository digest r c m fuel ended enough =
    let key = repository ++ lit "@" ++ digest in
    poll_loop_ends (lookup_round key r) (λ _ _. Unit) (IsFoundAt key r) (λ _ _ _ _ _. tt)
      (λ k c' found _ h. round_stops key r k c' found h) m
      (λ c' c''. round_ends key r m c' ended c'') fuel 0 c (omega arith) (omega arith) tt
