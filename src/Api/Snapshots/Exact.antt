-- ===== src/Api/Snapshots/Exact.antt =====
-- The list of events that a new connection is sent, one by one (internal/api/sse.go).
use snowdeploy.Base.{
  ℕ, ◌<◌, Text, lit, itoa, ◌≡◌, ◌≢◌, In, ◌⊎◌, ◌==◌, true, List, [], ◌∷◌, ◌++◌, Option, none, some,
}
use snowdeploy.Effect.{Event}
use snowdeploy.Journal.Defs.{Entry}
use snowdeploy.Journal.Table.{Table}
use snowdeploy.Api.Reads.{Sources}
use snowdeploy.Api.Snapshots.InFlight.{IsNewestRow}

-- The address of the change, for a repository on the web and a change with a number.
abbrev pub IsPrUrl : Text → ℕ → Text → Type 0
IsPrUrl web number url =
    ((web ≢ []) × (0 < number) × (url ≡ web ++ lit "/pull/" ++ itoa number))
    ⊎ (((web ≡ []) ⊎ (number ≡ 0)) × (url ≡ []))

-- The address of the merge, for a repository on the web and a merged change.
abbrev pub IsMergeUrl : Text → Text → Text → Type 0
IsMergeUrl web sha url =
    ((web ≢ []) × (sha ≢ []) × (url ≡ web ++ lit "/commit/" ++ sha))
    ⊎ (((web ≡ []) ⊎ (sha ≡ [])) × (url ≡ []))

abbrev pub IsStart : Option ℕ → ℕ → Type 0
IsStart none at = at ≡ 0
IsStart (some t) at = at ≡ t

-- The event tells the row, field by field.
pub record Tells (web : Text) (e : Entry) (ev : Event) : Type 0 where
  pub its_service : ev.service ≡ e.service
  pub its_action : ev.action ≡ e.action
  pub its_state : ev.state ≡ e.state
  pub its_detail : ev.detail ≡ e.detail
  pub its_id : ev.journal_id ≡ e.id
  pub its_pr : ev.pr_number ≡ e.pr_number
  pub its_pr_url : IsPrUrl web e.pr_number ev.pr_url
  pub its_merge_url : IsMergeUrl web e.merge_sha ev.merge_url
  pub its_start : IsStart e.started_at ev.at

-- There is no row of the service, or its newest row has finished.
abbrev pub IsQuiet : Table → Text → Type 0
IsQuiet t name =
    ((f : Entry) → In f t.rows → (f.service == name) ≡ true → ⊥)
    ⊎ ((e : Entry) × IsNewestRow name t e × (at : ℕ) × (e.finished_at ≡ some at))

-- One event for each name in turn whose newest row has not finished, and nothing for the others.
abbrev pub IsSent : Sources → Table → List Text → List Event → Type 0
IsSent s t [] evs = evs ≡ []
IsSent s t (name ∷ names) evs =
    (IsQuiet t name × IsSent s t names evs)
    ⊎ ((ev : Event) × (rest : List Event) × (evs ≡ ev ∷ rest)
        × ((e : Entry) × IsNewestRow name t e × (e.finished_at ≡ none) × Tells s.repo_web_url e ev)
        × IsSent s t names rest)
