-- ===== src/Tests/Cli.antt =====
-- The theorems on the command line client.
use snowdeploy.Base.{
  ℕ, Text, lit, ◌≡◌, refl, ◌==◌, ◌↔◌, true, false, List, [], ◌∷◌, Option, none, some, Error,
  errors_new, Result, ok, err, if◌then◌else◌,
}
use snowdeploy.Script.{run}
use snowdeploy.Cli.Client.{
  Query, Reply, read_token, build_request, send, open_stream, Response, HistoryEntry, ServiceStatus,
  Codec, Client,
}
use snowdeploy.Tests.World.{platform}
use snowdeploy.Gitops.Services.{DirEntry}
use snowdeploy.Cli.Validate.{ValidateFlags, split_list, cmd_validate}
use snowdeploy.Cli.Validate.Accepted.{IsAccepted, cmd_validate-IsAccepted}
use snowdeploy.Cli.Follow.{StreamEvent}
use snowdeploy.Cli.Commands.{Flags, state_of, followed_command}

abbrev plain : Text → Text
plain t = t

abbrev parses : Text → Option Error
parses url = none

abbrev no_message : Text → Option Text
no_message body = none

abbrev web : ServiceStatus
web = record {
  name = lit "web";
  manifest_digest = lit "sha256:aa";
  running_digest = lit "sha256:aa";
  latest_available = lit "sha256:bb";
  drifted = false;
  last_deploy = none;
}

abbrev one_service : Text → Result (List ServiceStatus)
one_service body = ok (web ∷ [])

abbrev no_history : Text → Result (List HistoryEntry)
no_history body = ok []

abbrev seventh : Text → Result ℕ
seventh body = ok 7

abbrev codec : Codec
codec = record {
  decode_error = no_message;
  decode_services = one_service;
  decode_history = no_history;
  decode_started = seventh;
  escape = plain;
}

-- The data of an event is its state; all of them are of run 7.
abbrev of_seven : Text → Option StreamEvent
of_seven data_text = some (record { state = data_text; detail = []; journal_id = 7 })

abbrev flags : List Text → Result (Flags × List Text)
flags args = ok (record { server = lit "http://127.0.0.1:8080/"; token_file = []; digest = [] }, [])

abbrev created : Response
created = record { code = 202; status = lit "202 Accepted"; body = [] }

abbrev streaming : Text → Response × List Text
streaming last = (
  record { code = 200; status = lit "200 OK"; body = [] },
  lit "id: 7-1" ∷ lit "data: checks" ∷ [] ∷ last ∷ [],
)

abbrev daemon : Text → (q : Query) → Reply q
daemon last (read_token path) = ok []
daemon last (build_request method url) = none
daemon last (send method url digest token) = ok created
daemon last (open_stream url token) = ok (streaming last)

-- A deploy whose run ends healthy, and one that is rolled back.
ends_healthy :
    run
      (daemon (lit "data: healthy"))
      (followed_command plain parses codec of_seven flags (lit "deploy") (lit "web" ∷ []))
    ≡ 0
unfolding followed_command lit ◌==◌ snowdeploy.Base.trim_prefix
ends_healthy = refl

rolled_back :
    run
      (daemon (lit "data: rolled-back"))
      (followed_command plain parses codec of_seven flags (lit "deploy") (lit "web" ∷ []))
    ≡ 1
unfolding followed_command lit ◌==◌ snowdeploy.Base.trim_prefix
rolled_back = refl

offers_update : state_of web ≡ lit "update available"
unfolding state_of lit ◌==◌
offers_update = refl

abbrev local_flags : Flags
local_flags = record { server = lit "http://127.0.0.1:8080/"; token_file = []; digest = [] }

abbrev local : Client
local = record { base_url = lit "http://127.0.0.1:8080"; token_file = [] }

abbrev two_entries : Text → Result (List DirEntry)
two_entries dir = ok (
    record { name = lit "web.yaml"; is_dir = false }
    ∷ record { name = lit "old"; is_dir = true }
    ∷ [])

abbrev unreadable : Text → Result Text
unreadable path = err (errors_new (lit "permission denied"))

abbrev services_dir : Result (ValidateFlags × Text)
services_dir =
    ok (record { volume_prefixes = lit "/srv, /data"; env_file_prefixes = [] }, lit "services")

cmd_validate-IsAccepted_example :
    (cmd_validate platform unreadable two_entries services_dir ≡ none)
    ↔ IsAccepted platform unreadable two_entries services_dir
cmd_validate-IsAccepted_example =
    cmd_validate-IsAccepted platform unreadable two_entries services_dir

lists_prefixes : split_list (lit "/srv, /data,") ≡ lit "/srv" ∷ lit "/data" ∷ []
unfolding split_list lit
lists_prefixes = refl
