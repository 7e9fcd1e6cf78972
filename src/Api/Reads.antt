-- ===== src/Api/Reads.antt =====
-- The reading routes of internal/api/api.go. What they ask of the repository, the host, the
-- registry's watcher, the journal and the resolver of revisions is a record of answers.
pub mod Resolved
pub mod Hidden
use snowdeploy.Base.{
  ℕ, zero, suc, ◌+◌, Text, lit, ◌==◌, is_empty, any, ltb, min, length, split, Bool, true, false,
  not, ◌||◌, ◌&&◌, List, [], ◌∷◌, ◌++◌, itoa, map, Option, none, some, Error, Result, ok, err,
  if◌then◌else◌,
}
use snowdeploy.Base.Int.{ℤ, pos, negsuc}
use snowdeploy.Dict.{Dict, put}
use snowdeploy.Manifest.Defs.{Manifest}
use snowdeploy.Manifest.Validate.{is_digest}
use snowdeploy.Journal.Defs.{Entry}
use snowdeploy.Registry.{PollStatus}
use snowdeploy.Revision.{Revision}
use snowdeploy.Api.Server.{
  Headers, Authenticator, Backend, Response, write_error, write_unavailable, service,
}

-- `sync_state` is as it is behind the sync; `lookup_revision` is the resolver's Lookup, where the
-- server has one.
pub record Sources : Type 0 where
  pub sync : Result Text
  pub sync_state : Bool × Option Error
  pub services : Result (List Text)
  pub manifest : Text → Result Manifest
  pub running_image : Text → Result Text
  pub latest : Text → Option Text
  pub last_poll : Text → Option PollStatus
  pub recent : Text → ℤ → Result (List Entry)
  pub lookup_revision : Option (Text → Text → Option Revision)
  pub repo_web_url : Text

pub record ServiceStatus : Type 0 where
  pub name : Text
  pub repository : Text
  pub manifest_digest : Text
  pub running_digest : Text
  pub latest_available : Text
  pub drifted : Bool
  pub last_deploy : Option Entry
  pub revisions : Option (Dict Revision)
  pub registry_reachable : Bool
  pub latest_checked_at : Option ℕ
  pub repo_web_url : Text

-- The answer of a reading route: a refusal, or 200 with what was read.
pub data Answer : Type 0 where
  refused : Response → Answer
  listed : List ServiceStatus → Answer
  read : List Entry → Answer
  resolved : Dict Revision → Answer

abbrev pub or_empty : Option Text → Text
or_empty none = []
or_empty (some t) = t

abbrev pub ok_or_empty : Result Text → Text
ok_or_empty (err e) = []
ok_or_empty (ok t) = t

abbrev pub is_ok : Option Error → Bool
is_ok none = true
is_ok (some e) = false

abbrev pub reachable : Option PollStatus → Bool
reachable none = false
reachable (some poll) = is_ok poll.failure

abbrev pub checked_at : Option PollStatus → Option ℕ
checked_at none = none
checked_at (some poll) = some poll.at

abbrev pub newest : Result (List Entry) → Option Entry
newest (err e) = none
newest (ok []) = none
newest (ok (e ∷ es)) = some e

abbrev pub noted : Text → Option Revision → Dict Revision → Dict Revision
noted digest none out = out
noted digest (some rev) out = put digest rev out

module _ (lookup_of : Text → Option Revision) where
  -- The loop over the digests, with those seen and what was found. Each lookup is a goroutine of its
  -- own, which writes its own digest only.
  unfoldable pub resolve_each : List Text → Dict Revision → List Text → Dict Revision
  unfolding put
  resolve_each seen out [] = out
  resolve_each seen out (digest ∷ digests) =
      let skip = is_empty digest || any (λ d. d == digest) seen in
      resolve_each (if skip then seen else digest ∷ seen)
        (if skip then out else noted digest (lookup_of digest) out) digests

abbrev pub found : Dict Revision → Option (Dict Revision)
found [] = none
found (r ∷ rs) = some (r ∷ rs)

abbrev pub resolve_by :
    Option (Text → Text → Option Revision) → Text → List Text → Option (Dict Revision)
resolve_by none repository digests = none
resolve_by (some lookup_revision) repository digests =
    found (resolve_each (lookup_revision repository) [] [] digests)

module _ (s : Sources) where
  unfoldable pub resolve_revisions : Text → List Text → Option (Dict Revision)
  unfolding resolve_each
  resolve_revisions = resolve_by s.lookup_revision

  abbrev blank : Text → ServiceStatus
  blank name = record {
    name = name;
    repository = [];
    manifest_digest = [];
    running_digest = [];
    latest_available = [];
    drifted = false;
    last_deploy = none;
    revisions = none;
    registry_reachable = false;
    latest_checked_at = none;
    repo_web_url = [];
  }

  abbrev pub status_of : Text → Result Manifest → ServiceStatus
  status_of name (err e) = blank name
  status_of name (ok m) =
      let repository = m.image.repository in
      let running = ok_or_empty (s.running_image name) in
      let latest = or_empty (s.latest repository) in
      record {
        name = name;
        repository = repository;
        manifest_digest = m.image.digest;
        running_digest = running;
        latest_available = latest;
        drifted = not (running == m.image.digest);
        last_deploy = newest (s.recent name (pos 1));
        revisions = resolve_revisions repository (m.image.digest ∷ running ∷ latest ∷ []);
        registry_reachable = reachable (s.last_poll repository);
        latest_checked_at = checked_at (s.last_poll repository);
        repo_web_url = s.repo_web_url;
      }

  unfoldable pub status : Text → ServiceStatus
  unfolding resolve_revisions
  status name = status_of name (s.manifest name)

  abbrev pub statuses : Result (List Text) → Answer
  statuses (err e) = refused (write_error 502 e.text)
  statuses (ok names) = listed (map status names)

  abbrev pub synced : Result Text → Answer
  synced (err e) = refused (write_unavailable s.sync_state.0 s.sync_state.1)
  synced (ok head) = statuses s.services

  -- The route, behind its authentication.
  unfoldable pub handle_services : Answer
  unfolding status write_unavailable
  handle_services = synced s.sync

  abbrev pub default_history : ℕ
  default_history = 20

  abbrev pub max_history : ℕ
  max_history = 200

  abbrev history_error : Answer
  history_error = refused (write_error 400 (lit "n must be a positive integer"))

  abbrev pub entries_or : Result (List Entry) → Answer
  entries_or (err e) = refused (write_error 500 e.text)
  entries_or (ok es) = read es

  abbrev pub asked : Text → Result ℤ → Answer
  asked name (err e) = history_error
  asked name (ok (pos zero)) = history_error
  asked name (ok (pos (suc n))) = entries_or (s.recent name (pos (min (suc n) max_history)))
  asked name (ok (negsuc n)) = history_error

  module _ (b : Backend) where
    -- The name in the path, the parameter `n`, and strconv.Atoi.
    unfoldable pub handle_history : (Text → Result ℤ) → Text → Text → Answer
    unfolding service
    handle_history atoi n = service b refused λ name.
        if is_empty n then entries_or (s.recent name (pos default_history)) else asked name (atoi n)

    abbrev pub max_revision_digests : ℕ
    max_revision_digests = 40

    -- The loop that checks each digest.
    abbrev pub first_bad : List Text → Option Text
    first_bad [] = none
    first_bad (d ∷ ds) = let rest = first_bad ds in if is_digest d then rest else some d

    abbrev pub revisions_or_empty : Option (Dict Revision) → Answer
    revisions_or_empty none = resolved []
    revisions_or_empty (some revs) = resolved revs

    abbrev pub revisions_of : List Text → Result Manifest → Answer
    revisions_of digests (err e) = refused (write_error 404 (lit "no such service"))
    revisions_of digests (ok m) = revisions_or_empty (resolve_revisions m.image.repository digests)

    abbrev pub revisions_checked : (Text → Text) → Text → List Text → Option Text → Answer
    revisions_checked quote name digests (some d) =
        refused (write_error 400 (quote d ++ lit " is not a sha256 digest"))
    revisions_checked quote name digests none = revisions_of digests (s.manifest name)

    unfoldable pub handle_revisions : (Text → Text) → Text → Text → Answer
    unfolding service resolve_revisions is_digest
    handle_revisions quote raw = service b refused λ name.
        let digests = split b',' raw in
        if is_empty raw
        then refused (write_error 400 (lit "digests is required"))
        else if ltb max_revision_digests (length digests)
        then refused (
            write_error 400
              (lit "at most " ++ itoa max_revision_digests ++ lit " digests per request"))
        else revisions_checked quote name digests (first_bad digests)
