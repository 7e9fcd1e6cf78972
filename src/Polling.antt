-- ===== src/Polling.antt =====
-- A loop that polls, `for { …; select { case <-ctx.Done(): return …; case <-ticker.C: } }`: a body
-- for each round, from a state, and its one rule. The fuel bounds the rounds.
use mathlib.Core.Path.{subst}
use native.Mathlib.Decide.{dec_lt}
use snowdeploy.Base.{
  ℕ, zero, suc, ◌+◌, ◌≤◌, ◌<◌, ◌≡◌, ◌≢◌, refl, ◌⊎◌, inl, inr, Option, none, some, arith,
}

-- A round returns, or the loop goes on.
pub data Round {ℓ κ} (A : Type ℓ) (S : Type κ) : Type (ℓ ⊔ κ) where
  stops : A → Round A S
  goes : S → Round A S

-- What a round returns, if it does, is as described.
abbrev pub Stopped : {A S : Type 0} → (A → Type 0) → Round A S → Type 0
Stopped Q (stops a) = Q a
Stopped Q (goes s) = Unit

pub stopped :
    {A S : Type 0} (Q : A → Type 0) (r : Round A S) (a : A) → r ≡ stops a → Stopped Q r → Q a
stopped Q r a e h = subst (Stopped Q) e h

Round-cases : {A S : Type 0} (r : Round A S) → ((a : A) × (r ≡ stops a)) ⊎ ((s : S) × (r ≡ goes s))
Round-cases (stops a) = inl (a, refl)
Round-cases (goes s) = inr (s, refl)

module _ {A S : Type 0} (body : ℕ → S → Round A S) where
  -- None means that the fuel ran out.
  unfoldable pub poll_loop : ℕ → ℕ → S → Option A
  poll_loop zero k s = none
  poll_loop (suc fuel) k s = elim (body k s) [
    | stops a ↦ some a
    | goes s' ↦ poll_loop fuel (suc k) s'
  ]

  -- If round `m` does not go on, and the fuel reaches it, the loop returns there or before, and
  -- returns what that round makes true, given what the rounds before it keep.
  pub poll_loop_ends :
      (P : ℕ → S → Type 0) (Q : ℕ → A → Type 0)
      → ((k : ℕ) (s s' : S) → P k s → body k s ≡ goes s' → P (suc k) s')
      → ((k : ℕ) (s : S) (a : A) → P k s → body k s ≡ stops a → Q k a)
      → (m : ℕ) → ((s s' : S) → body m s ≢ goes s')
      → (fuel k : ℕ) (s : S) → k ≤ m
      → m < k + fuel
      → P k s
      → (a : A) × (poll_loop fuel k s ≡ some a) × ((j : ℕ) × (j ≤ m) × Q j a)
  unfolding poll_loop
  poll_loop_ends P Q keep end m last zero k s le lt p = absurd (omega arith)
  poll_loop_ends P Q keep end m last (suc fuel) k s le lt p = elim (Round-cases (body k s)) [
    | inl (a, e) ↦ (a, rw (e, poll_loop) refl, (k, le, end k s a p e))
    | inr (s', e) ↦
        let further : k ≢ m = λ h. last s s' (subst (λ (j : ℕ). body j s ≡ goes s') h e) in
        let rest =
          poll_loop_ends P Q keep end m last fuel (suc k) s' (grind arith) (omega arith)
            (keep k s s' p e) in
        (rest.0, rw (e, poll_loop) rest.1, rest.2)
  ]

  -- If every round before `m` goes on, the loop returns what round `m` returns.
  pub poll_loop_reaches :
      (m : ℕ) (a : A)
      → ((k : ℕ) (s : S) → k < m → (s' : S) × (body k s ≡ goes s'))
      → ((s : S) → body m s ≡ stops a)
      → (fuel k : ℕ) (s : S) → k ≤ m
      → m < k + fuel
      → poll_loop fuel k s ≡ some a
  unfolding poll_loop
  poll_loop_reaches m a on last zero k s le lt = absurd (omega arith)
  poll_loop_reaches m a on last (suc fuel) k s le lt = elim (dec_lt k m) [
    | yes before ↦
        let step = on k s before in
        rw (step.1, poll_loop)
          (poll_loop_reaches m a on last fuel (suc k) step.0 (omega arith) (omega arith))
    | no reached ↦
        let here : m ≡ k = omega arith in
        rw (subst (λ (j : ℕ). body j s ≡ stops a) here (last s), poll_loop) refl
  ]
