-- ===== src/Api/Snapshots.antt =====
-- snapshotEvents and eventFromEntry of internal/api/sse.go: what a new connection is owed.
pub mod Exact
pub mod InFlight
use snowdeploy.Base.{
  ltb, Text, lit, itoa, is_empty, Bool, true, false, not, ◌&&◌, List, [], ◌∷◌, ◌++◌, Option, none,
  some, Result, ok, err, if◌then◌else◌,
}
use snowdeploy.Base.Int.{pos}
use snowdeploy.Effect.{Event}
use snowdeploy.Journal.Defs.{Entry}
use snowdeploy.Journal.Table.{is_unfinished}
use snowdeploy.Journal.Queries.{time}
use snowdeploy.Api.Reads.{Sources, newest}

module _ (s : Sources) where
  unfoldable pub event_from_entry : Entry → Event
  event_from_entry e = record {
    service = e.service;
    action = e.action;
    state = e.state;
    detail = e.detail;
    journal_id = e.id;
    pr_number = e.pr_number;
    pr_url =
        if not (is_empty s.repo_web_url) && ltb 0 e.pr_number
        then s.repo_web_url ++ lit "/pull/" ++ itoa e.pr_number
        else [];
    merge_url =
        if not (is_empty s.repo_web_url) && not (is_empty e.merge_sha)
        then s.repo_web_url ++ lit "/commit/" ++ e.merge_sha
        else [];
    at = time e.started_at;
  }

  abbrev pub in_flight : Option Entry → List Event
  in_flight none = []
  in_flight (some e) = if is_unfinished e then event_from_entry e ∷ [] else []

  unfoldable pub snapshot_of : List Text → List Event
  unfolding event_from_entry
  snapshot_of [] = []
  snapshot_of (name ∷ names) = in_flight (newest (s.recent name (pos 1))) ++ snapshot_of names

  abbrev pub snapshot_listed : Result (List Text) → List Event
  snapshot_listed (err e) = []
  snapshot_listed (ok names) = snapshot_of names

  unfoldable pub snapshot_events : List Event
  unfolding snapshot_of
  snapshot_events = snapshot_listed s.services
