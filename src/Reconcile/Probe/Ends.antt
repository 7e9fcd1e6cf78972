-- ===== src/Reconcile/Probe/Ends.antt =====
-- The health probe ends, and what it reports (internal/reconcile/probe.go).
use mathlib.Core.Path.{subst}
use native.Mathlib.Decide.{dec_lt}
use snowdeploy.Base.{
  ℕ, suc, ◌≤◌, ◌<◌, Text, ◌≡◌, refl, ◌⊎◌, inl, inr, Bool, true, false, Option, none, some, Error,
  Result, ok, err, arith,
}
use snowdeploy.Base.Int.{ℤ}
use snowdeploy.Polling.{Stopped, stopped, goes, poll_loop_ends}
use snowdeploy.Reconcile.Probe.{
  Attempt, response_error, built, probe_once, last_failure, gave_up, failed_round, probed,
  probe_round, probe, timeout_or_default, interval_or_default,
}

-- The endpoint answered 2xx.
abbrev pub IsHealthy : Attempt → Type 0
IsHealthy a =
    (a.build ≡ none) × ((status : ℕ) × (a.response ≡ ok status) × (200 ≤ status) × (status ≤ 299))

-- Of the attempts before `k`, the failure to report: the newest one behind which the context was
-- live, or the first one, if there is none.
pub record Blames (attempts : ℕ → Attempt) (k : ℕ) (e : Error) : Type 0 where
  pub round : ℕ
  pub before : round < k
  pub failed : probe_once (attempts round) ≡ some e
  pub newest : ((attempts round).is_live ≡ true) ⊎ (round ≡ 0)
  pub later : (i : ℕ) → round < i → i < k → (attempts i).is_live ≡ false

probe_once-IsHealthy : (a : Attempt) → probe_once a ≡ none → IsHealthy a
unfolding probe_once
probe_once-IsHealthy a = of_build a.build refl
  where
    of_response :
        (r : Result ℕ)
        → response_error r ≡ none
        → (status : ℕ) × (r ≡ ok status) × (200 ≤ status) × (status ≤ 299)
    of_response (err e) h = cc
    of_response (ok status) h = (status, refl, ground arith, ground arith)

    of_build : (o : Option Error) → a.build ≡ o → built o a.response ≡ none → IsHealthy a
    of_build (some e) k h = cc
    of_build none k h = (k, of_response a.response h)

module _ (attempts : ℕ → Attempt) where
  -- What is remembered before round `k`.
  abbrev Remembers : ℕ → Option Error → Type 0
  Remembers k none = k ≡ 0
  Remembers k (some e) = Blames attempts k e

  last_failure-Blames :
      (k : ℕ) (e : Error) (last : Option Error)
      → probe_once (attempts k) ≡ some e
      → Remembers k last
      → Blames attempts (suc k) (last_failure (attempts k).is_live e last)
  last_failure-Blames k e last h r = of_live (attempts k).is_live last refl r
    where
      of_live :
          (b : Bool) (o : Option Error)
          → (attempts k).is_live ≡ b
          → Remembers k o
          → Blames attempts (suc k) (last_failure b e o)
      of_live true o l q = record {
        round = k;
        before = omega arith;
        failed = h;
        newest = inl l;
        later = λ i p s. absurd (omega arith);
      }
      of_live false none l q = record {
        round = k;
        before = omega arith;
        failed = h;
        newest = inr q;
        later = λ i p s. absurd (omega arith);
      }
      of_live false (some f) l q = record {
        round = q.round;
        before = omega (arith, q.before);
        failed = q.failed;
        newest = q.newest;
        later = λ i p s. elim (dec_lt i k) [
          | yes before ↦ q.later i p before
          | no reached ↦
              let here : k ≡ i = omega arith in
              subst (λ (j : ℕ). (attempts j).is_live ≡ false) here l
        ];
      }

  module _ (duration_text : ℤ → Text) (url : Text) (timeout : ℤ) where
    -- What the probe answers in its last round.
    abbrev pub IsReport : ℕ → Option Error → Type 0
    IsReport k none = IsHealthy (attempts k)
    IsReport k (some e) =
        (f : Error) × Blames attempts (suc k) f × (e ≡ gave_up duration_text url timeout f)

    failed_round-keeps :
        (k : ℕ) (ended : Bool) (f : Error) (last : Option Error)
        → Blames attempts (suc k) f
        → failed_round duration_text url timeout ended f ≡ goes last
        → Remembers (suc k) last
    failed_round-keeps k true f last b h = cc
    failed_round-keeps k false f last b h =
        let same : some f ≡ last = cc in subst (Remembers (suc k)) same b

    failed_round-Stopped :
        (k : ℕ) (ended : Bool) (f : Error)
        → Blames attempts (suc k) f
        → Stopped (IsReport k) (failed_round duration_text url timeout ended f)
    failed_round-Stopped k true f b = (f, b, refl)
    failed_round-Stopped k false f b = tt

    round-keeps :
        (k : ℕ) (last last' : Option Error)
        → Remembers k last
        → probe_round duration_text url timeout (attempts k) last ≡ goes last'
        → Remembers (suc k) last'
    unfolding probe_round
    round-keeps k last last' r = of_once (probe_once (attempts k)) refl
      where
        of_once :
            (o : Option Error)
            → probe_once (attempts k) ≡ o
            → probed duration_text url timeout (attempts k) o last ≡ goes last'
            → Remembers (suc k) last'
        of_once none h e = cc
        of_once (some f) h e =
            failed_round-keeps k (attempts k).has_ended _ last' (last_failure-Blames k f last h r) e

    round-Stopped :
        (k : ℕ) (last : Option Error)
        → Remembers k last
        → Stopped (IsReport k) (probe_round duration_text url timeout (attempts k) last)
    unfolding probe_round
    round-Stopped k last r = of_once (probe_once (attempts k)) refl
      where
        of_once :
            (o : Option Error)
            → probe_once (attempts k) ≡ o
            → Stopped (IsReport k) (probed duration_text url timeout (attempts k) o last)
        of_once none h = probe_once-IsHealthy (attempts k) h
        of_once (some f) h =
            failed_round-Stopped k (attempts k).has_ended _ (last_failure-Blames k f last h r)

    round-goes :
        (k : ℕ) (last last' : Option Error)
        → probe_round duration_text url timeout (attempts k) last ≡ goes last'
        → (attempts k).has_ended ≡ false
    unfolding probe_round
    round-goes k last last' = of_once (probe_once (attempts k))
      where
        of_ended :
            (ended : Bool) (f : Error)
            → failed_round duration_text url timeout ended f ≡ goes last'
            → ended ≡ false
        of_ended true f h = cc
        of_ended false f h = refl

        of_once :
            (o : Option Error)
            → probed duration_text url timeout (attempts k) o last ≡ goes last'
            → (attempts k).has_ended ≡ false
        of_once none h = cc
        of_once (some f) h = of_ended (attempts k).has_ended _ h

-- The probe returns no later than the round in which its context ends. It reports health only of a
-- 2xx answer in its last round; and a failure it reports is the newest one that the endpoint
-- produced while the context was live, or its first one, if there is none.
pub probe-returns :
    (duration_text : ℤ → Text) (url : Text) (timeout interval : ℤ) (attempts : ℕ → ℕ → ℕ → Attempt)
    (m fuel : ℕ)
    → (attempts (timeout_or_default timeout) (interval_or_default interval) m).has_ended ≡ true
    → m < fuel
    → (o : Option Error) × (probe duration_text url timeout interval attempts fuel ≡ some o)
      × ((k : ℕ) × (k ≤ m)
          × IsReport
              (attempts (timeout_or_default timeout) (interval_or_default interval))
              duration_text
              url
              timeout
              k
              o)
unfolding probe
probe-returns duration_text url timeout interval attempts m fuel ended enough =
    let seen = attempts (timeout_or_default timeout) (interval_or_default interval) in
    poll_loop_ends (λ k last. probe_round duration_text url timeout (seen k) last) (Remembers seen)
      (IsReport seen duration_text url timeout) (round-keeps seen duration_text url timeout)
      (λ k last o r h.
        stopped (IsReport seen duration_text url timeout k) _ o h
          (round-Stopped seen duration_text url timeout k last r))
      m (λ last last' h. cc (round-goes seen duration_text url timeout m last last' h)) fuel 0 none
      (omega arith) (omega arith) refl
