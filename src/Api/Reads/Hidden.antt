-- ===== src/Api/Reads/Hidden.antt =====
-- What a client is told of a failed sync (internal/api/api.go, internal/gitops/repo.go).
use snowdeploy.Base.{
  Text, ◌≡◌, refl, Bool, true, false, some, Error, errors_is, Sentinel, Result, err, if◌then◌else◌,
}
use snowdeploy.Gitops.Mirror.{
  credential_unreadable, remote_unreachable, classify_sync_failure, Repo, sync, sync_state,
}
use snowdeploy.Api.Server.{write_error, write_unavailable}
use snowdeploy.Api.Reads.{Sources, Answer, refused, handle_services}

-- The server over a mirror, whose fetch answers `fetched`.
abbrev pub over_mirror : Result Text → Repo → Sources → Sources
over_mirror fetched r s = record s {
  sync = (sync fetched r).1;
  sync_state = sync_state (sync fetched r).0;
}

-- One of two fixed sentences, and a code that says whether the mirror was ever populated.
abbrev pub told : Bool → Bool → Answer
told synced no_credential = refused (
    write_error (if synced then 502 else 503)
      (if no_credential then credential_unreadable.text else remote_unreachable.text))

-- Where the fetch fails, the listing of services answers one of two fixed sentences, chosen by whether
-- the error is that of a missing credential, with 502 for a mirror that was populated before and 503
-- for one that never was: nothing of the text of the error reaches the client.
pub handle_services-told :
    (e : Error) (r : Repo) (s : Sources)
    → handle_services (over_mirror (err e) r s)
      ≡ told r.synced (errors_is e Sentinel.credential_unavailable)
unfolding handle_services sync sync_state classify_sync_failure write_unavailable
handle_services-told e r s = of_error (errors_is e Sentinel.credential_unavailable) r.synced
  where
    of_error :
        (no_credential synced : Bool)
        → (let state = sync_state (record r {
          synced = synced;
          failure = some (if no_credential then credential_unreadable else remote_unreachable);
        }) in
            refused (write_unavailable state.0 state.1))
          ≡ told synced no_credential
    of_error true true = refl
    of_error true false = refl
    of_error false true = refl
    of_error false false = refl
