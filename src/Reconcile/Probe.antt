-- ===== src/Reconcile/Probe.antt =====
-- internal/reconcile/probe.go: the health probe. What the endpoint answers to each request, and
-- what the context and the ticker do, are a parameter.
pub mod Ends
use snowdeploy.Base.{
  ℕ, zero, suc, Text, lit, itoa, ltb, Bool, true, false, ◌||◌, ◌++◌, Option, none, some, Error,
  errors_new, wrap, Result, ok, err, if◌then◌else◌,
}
use snowdeploy.Base.Int.{ℤ, pos, negsuc}
use snowdeploy.Polling.{Round, stops, goes, poll_loop}

-- One round: whether the request could be built, what came back, whether the context was live
-- behind it, and whether it ended before the tick.
pub record Attempt : Type 0 where
  pub build : Option Error
  pub response : Result ℕ
  pub is_live : Bool
  pub has_ended : Bool

abbrev pub response_error : Result ℕ → Option Error
response_error (err e) = some (wrap (lit "probe request: " ++ e.text) e)
response_error (ok status) =
    if ltb status 200 || ltb 299 status
    then some (errors_new (lit "probe answered " ++ itoa status))
    else none

abbrev pub built : Option Error → Result ℕ → Option Error
built (some e) response = some (wrap (lit "build probe request: " ++ e.text) e)
built none response = response_error response

unfoldable pub probe_once : Attempt → Option Error
probe_once a = built a.build a.response

-- A duration that is not positive takes the default: 30 seconds for the whole probe, 2 seconds
-- between its requests.
unfoldable pub timeout_or_default : ℤ → ℕ
timeout_or_default (pos zero) = 30000000000
timeout_or_default (pos (suc n)) = suc n
timeout_or_default (negsuc n) = 30000000000

unfoldable pub interval_or_default : ℤ → ℕ
interval_or_default (pos zero) = 2000000000
interval_or_default (pos (suc n)) = suc n
interval_or_default (negsuc n) = 2000000000

-- `last` is the newest failure that the endpoint itself produced.
abbrev pub last_failure : Bool → Error → Option Error → Error
last_failure true e last = e
last_failure false e none = e
last_failure false e (some f) = f

module _ (duration_text : ℤ → Text) (url : Text) (timeout : ℤ) where
  abbrev pub gave_up : Error → Error
  gave_up last =
      wrap
        (lit "health probe "
          ++ url
          ++ lit " did not pass within "
          ++ duration_text (pos (timeout_or_default timeout))
          ++ lit ": "
          ++ last.text)
        last

  abbrev pub failed_round : Bool → Error → Round (Option Error) (Option Error)
  failed_round has_ended last = if has_ended then stops (some (gave_up last)) else goes (some last)

  abbrev pub probed : Attempt → Option Error → Option Error → Round (Option Error) (Option Error)
  probed a none last = stops none
  probed a (some e) last = failed_round a.has_ended (last_failure a.is_live e last)

  unfoldable pub probe_round : Attempt → Option Error → Round (Option Error) (Option Error)
  unfolding probe_once
  probe_round a last = probed a (probe_once a) last

  -- The attempts come within the timeout, at the ticks of the interval.
  unfoldable pub probe : ℤ → (ℕ → ℕ → ℕ → Attempt) → ℕ → Option (Option Error)
  unfolding probe_round poll_loop interval_or_default
  probe interval attempts fuel =
      poll_loop
        (λ k last.
          probe_round (attempts (timeout_or_default timeout) (interval_or_default interval) k) last)
        fuel 0 none
