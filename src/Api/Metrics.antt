-- ===== src/Api/Metrics.antt =====
-- internal/api/metrics.go: what the Prometheus collectors hold. A counter is the list of the labels
-- that it was incremented under, the newest first, and a histogram the list of its observations.
pub mod Marks
use snowdeploy.Base.{
  ℕ, Text, eqb, Bool, true, false, List, [], ◌∷◌, Option, none, some, Error, if◌then◌else◌,
}
use snowdeploy.Dict.{Dict, lookup, put}
use snowdeploy.Effect.{Event}
use snowdeploy.Journal.Defs.{State, is_terminal}

pub record StateMark : Type 0 where
  pub state : State
  pub at : ℕ

-- How long a run was in a state: from one event to the next.
pub record StateDuration : Type 0 where
  pub state : State
  pub since : ℕ
  pub until : ℕ

pub record Metrics : Type 0 where
  pub deploys : List (Text × State)
  pub state_duration : List StateDuration
  pub drift : Dict ℕ
  pub registry_polls : List (Text × Bool)
  pub last_state : List (ℕ × StateMark)

unfoldable pub new_metrics : Metrics
new_metrics = record {
  deploys = [];
  state_duration = [];
  drift = [];
  registry_polls = [];
  last_state = [];
}

unfoldable pub mark_of : ℕ → List (ℕ × StateMark) → Option StateMark
mark_of id [] = none
mark_of id ((j, mark) ∷ marks) = if eqb j id then some mark else mark_of id marks

unfoldable pub delete_mark : ℕ → List (ℕ × StateMark) → List (ℕ × StateMark)
delete_mark id [] = []
delete_mark id ((j, mark) ∷ marks) =
    let rest = delete_mark id marks in if eqb j id then rest else (j, mark) ∷ rest

abbrev pub timed : ℕ → Option StateMark → List StateDuration → List StateDuration
timed at none durations = durations
timed at (some prev) durations =
    record { state = prev.state; since = prev.at; until = at } ∷ durations

abbrev pub moment : ℕ → Event → ℕ
moment now ev = if eqb ev.at 0 then now else ev.at

-- The entry of the map behind an event.
abbrev pub marked : ℕ → Event → List (ℕ × StateMark) → List (ℕ × StateMark)
marked now ev marks =
    let others = delete_mark ev.journal_id marks in
    if is_terminal ev.state
    then others
    else (ev.journal_id, record { state = ev.state; at = moment now ev }) ∷ others

unfoldable pub observe : ℕ → Event → Metrics → Metrics
unfolding mark_of delete_mark
observe now ev m = if eqb ev.journal_id 0 then m else record m {
  deploys = if is_terminal ev.state then (ev.service, ev.state) ∷ m.deploys else m.deploys;
  state_duration = timed (moment now ev) (mark_of ev.journal_id m.last_state) m.state_duration;
  last_state = marked now ev m.last_state;
}

abbrev is_nil : Option Error → Bool
is_nil none = true
is_nil (some e) = false

unfoldable pub record_registry_poll : Text → Option Error → Metrics → Metrics
record_registry_poll repository e m = record m {
  registry_polls = (repository, is_nil e) ∷ m.registry_polls;
}

abbrev pub gauge : Option Text → ℕ
gauge none = 0
gauge (some detail) = 1

-- The loop over the services that are known.
unfoldable pub set_known : Dict Text → List Text → Dict ℕ → Dict ℕ
unfolding lookup put
set_known drift [] gauges = gauges
set_known drift (service ∷ known) gauges =
    set_known drift known (put service (gauge (lookup service drift)) gauges)

-- The loop over the services that drift.
unfoldable pub set_drifting : Dict Text → Dict ℕ → Dict ℕ
unfolding put
set_drifting [] gauges = gauges
set_drifting ((service, detail) ∷ drift) gauges = set_drifting drift (put service 1 gauges)

unfoldable pub set_drift : Dict Text → List Text → Metrics → Metrics
unfolding set_known set_drifting
set_drift drift known m = record m { drift = set_drifting drift (set_known drift known m.drift) }
