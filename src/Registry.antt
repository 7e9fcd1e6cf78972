-- ===== src/Registry.antt =====
-- internal/registry/registry.go: the watcher and its poll. The registry, the clock and the context
-- are parameters: what each answers at the n-th resolve.
pub mod Standing
use snowdeploy.Base.{
  ℕ, zero, suc, ◌+◌, Text, lit, Bool, List, [], ◌∷◌, ◌++◌, Option, none, some, Error, length,
  Result, ok, err, if◌then◌else◌,
}
use snowdeploy.Base.Int.{ℤ, pos, negsuc}
use snowdeploy.Dict.{Dict, lookup, put}

-- At is the time of the poll; `failure` is nil where the registry answered.
pub record PollStatus : Type 0 where
  pub at : ℕ
  pub failure : Option Error

pub record Watcher : Type 0 where
  pub interval : ℕ
  pub tag : Text
  pub latest : Dict Text
  pub polls : Dict PollStatus

-- 5 minutes, in nanoseconds, for an interval that is not positive.
abbrev interval_or_default : ℤ → ℕ
interval_or_default (pos zero) = 300000000000
interval_or_default (pos (suc n)) = suc n
interval_or_default (negsuc n) = 300000000000

unfoldable pub new_watcher : ℤ → Watcher
new_watcher interval = record {
  interval = interval_or_default interval;
  tag = lit "latest";
  latest = [];
  polls = [];
}

unfoldable pub latest_of : Watcher → Text → Option Text
unfolding lookup
latest_of w repository = lookup repository w.latest

unfoldable pub last_poll : Watcher → Text → Option PollStatus
unfolding lookup
last_poll w repository = lookup repository w.polls

-- What the watcher remembers of one resolve.
unfoldable pub remember : Text → Result Text → ℕ → Watcher → Watcher
unfolding put
remember repo (ok digest) at w = record w {
  latest = put repo digest w.latest;
  polls = put repo (record { at = at; failure = none }) w.polls;
}
remember repo (err e) at w = record w {
  polls = put repo (record { at = at; failure = some e }) w.polls;
}

abbrev pub failure_of : Result Text → Option Error
failure_of (ok digest) = none
failure_of (err e) = some e

-- A report to the observer, with what it would read of the watcher: the digest at that moment.
pub record Report : Type 0 where
  pub repository : Text
  pub failure : Option Error
  pub sees : Option Text

module _ (is_done : ℕ → Bool) (resolve_digest : ℕ → Text → Text → Result Text) (now : ℕ → ℕ) where
  abbrev pub report : ℕ → Text → Watcher → Report
  report n repo w = record {
    repository = repo;
    failure = failure_of (resolve_digest n repo w.tag);
    sees = latest_of (remember repo (resolve_digest n repo w.tag) (now n) w) repo;
  }

  -- The loop over the repositories, from the n-th resolve on, with the reports in order.
  unfoldable pub poll : ℕ → List Text → Watcher → Watcher × List Report
  poll n [] w = (w, [])
  poll n (repo ∷ repos) w =
      let after = remember repo (resolve_digest n repo w.tag) (now n) w in
      let rest = poll (n + 1) repos after in
      if is_done n then (w, []) else (rest.0, report n repo w ∷ rest.1)

  -- One poll for each tick, each with its list of repositories.
  unfoldable pub run_polls : ℕ → List (List Text) → Watcher → Watcher × List Report
  unfolding poll
  run_polls n [] w = (w, [])
  run_polls n (repos ∷ ticks) w =
      let (after, reports) = poll n repos w in
      let rest = run_polls (n + suc (length repos)) ticks after in (rest.0, reports ++ rest.1)
