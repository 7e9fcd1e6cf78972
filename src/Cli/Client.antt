-- ===== src/Cli/Client.antt =====
-- cmd/snowdeploy/client.go: the client of the daemon's API, as scripts of the calls of package os
-- and net/http. The JSON decoders and url.Parse are parameters.
use snowdeploy.Base.{
  ℕ, Text, lit, ◌==◌, is_empty, trim_space, take, itoa, ltb, eqb, Bool, not, ◌||◌, List, ◌++◌,
  Option, none, some, Error, errors_new, wrap, Result, ok, err, if◌then◌else◌,
}
use snowdeploy.Revision.{trim_suffix}
use snowdeploy.Script.{Language, Script, ret, ◌>>=◌, query}

-- The status without and with its reason, and the body.
pub record Response : Type 0 where
  pub code : ℕ
  pub status : Text
  pub body : Text

pub data Query : Type 0 where
  -- os.ReadFile of the token file
  read_token : Text → Query
  -- http.NewRequest of a method and a URL
  build_request : Text → Text → Query
  -- Client.Do of it, with a JSON digest for a body and a bearer token, where there is one
  send : Text → Text → Option Text → Option Text → Query
  -- the same for the event stream, whose answer goes on with lines until it ends
  open_stream : Text → Option Text → Query

abbrev pub Reply : Query → Type 0
Reply (read_token path) = Result Text
Reply (build_request method url) = Option Error
Reply (send method url digest token) = Result Response
Reply (open_stream url token) = Result (Response × List Text)

abbrev pub http : Language
http = record { Query = Query; Reply = Reply }

pub record Client : Type 0 where
  pub base_url : Text
  pub token_file : Text

abbrev parsed_server : (Text → Text) → Text → Text → Option Error → Result Client
parsed_server quote server token_file (some e) =
    err (wrap (lit "server address " ++ quote server ++ lit ": " ++ e.text) e)
parsed_server quote server token_file none =
    ok (record { base_url = server; token_file = token_file })

unfoldable pub new_client : (Text → Text) → (Text → Option Error) → Text → Text → Result Client
unfolding trim_suffix trim_space
new_client quote parse_url server token_file =
    let trimmed = trim_suffix (trim_space server) (lit "/") in
    if is_empty trimmed
    then err (errors_new (lit "no server address: pass --server or set SNOWDEPLOY_SERVER"))
    else parsed_server quote trimmed token_file (parse_url trimmed)

abbrev failed : Text → Error → Error
failed prefix e = wrap (prefix ++ lit ": " ++ e.text) e

abbrev pub is_success : ℕ → Bool
is_success code = not (ltb code 200 || ltb 299 code)

module _ (c : Client) where
  abbrev pub token_of : Result Text → Result (Option Text)
  token_of (err e) = err (failed (lit "read token file") e)
  token_of (ok raw) =
      if is_empty (trim_space raw)
      then err (errors_new (lit "token file " ++ c.token_file ++ lit " is empty"))
      else ok (some (trim_space raw))

  -- The bearer token, if one is configured.
  unfoldable pub authorize : Script http (Result (Option Text))
  authorize =
      if is_empty c.token_file
      then ret (ok none)
      else (do raw ← query (read_token c.token_file); ret (token_of raw))

  abbrev pub request_built : Option Error → Script http (Result (Option Text))
  request_built (some e) = ret (err (failed (lit "build request") e))
  request_built none = authorize

  unfoldable pub new_request : Text → Text → Script http (Result (Option Text))
  unfolding authorize
  new_request method path = do
    e ← query (build_request method (c.base_url ++ path))
    request_built e

  -- describe: the error of a JSON body, else the body, else the status alone.
  module _ (decode_error : Text → Option Text) where
    abbrev described_by : Text → Text → Option Text → Text
    described_by status body (some message) = status ++ lit ": " ++ message
    described_by status body none =
        if is_empty (trim_space body) then status else status ++ lit ": " ++ trim_space body

    abbrev given : Option Text → Option Text
    given none = none
    given (some message) = if is_empty message then none else some message

    unfoldable pub describe : Response → Text
    describe r =
        let body = take 8192 r.body in described_by r.status body (given (decode_error body))

    abbrev pub answered : Text → Text → Result Response → Result Text
    answered method path (err e) = err (failed (method ++ lit " " ++ path) e)
    answered method path (ok r) =
        if is_success r.code
        then ok r.body
        else err (errors_new (method ++ lit " " ++ path ++ lit ": " ++ describe r))

    abbrev pub sent : Text → Text → Option Text → Result (Option Text) → Script http (Result Text)
    sent method path digest (err e) = ret (err e)
    sent method path digest (ok token) = do
      r ← query (send method (c.base_url ++ path) digest token)
      ret (answered method path r)

    -- client.do, up to the body of its answer
    unfoldable pub perform : Text → Text → Option Text → Script http (Result Text)
    unfolding new_request describe
    perform method path digest = do token ← new_request method path; sent method path digest token

abbrev pub decode_answer : {A : Type 0} → Text → Result A → Result A
decode_answer path (ok a) = ok a
decode_answer path (err e) = err (failed (lit "decode " ++ path ++ lit " response") e)

abbrev pub decode_body : {A : Type 0} → (Text → Result A) → Text → Result Text → Result A
decode_body decode path (err e) = err e
decode_body decode path (ok body) = decode_answer path (decode body)

-- A journal entry and a service row, as far as they are looked at. `finished` says that FinishedAt
-- is not the zero time.
pub record HistoryEntry : Type 0 where
  pub action : Text
  pub state : Text
  pub detail : Text
  pub pr_number : ℕ
  pub new_digest : Text
  pub finished : Bool

pub record ServiceStatus : Type 0 where
  pub name : Text
  pub manifest_digest : Text
  pub running_digest : Text
  pub latest_available : Text
  pub drifted : Bool
  pub last_deploy : Option HistoryEntry

-- The decoders of the answers, and url.PathEscape.
pub record Codec : Type 0 where
  pub decode_error : Text → Option Text
  pub decode_services : Text → Result (List ServiceStatus)
  pub decode_history : Text → Result (List HistoryEntry)
  pub decode_started : Text → Result ℕ
  pub escape : Text → Text

module _ (x : Codec) (c : Client) where
  unfoldable pub services : Script http (Result (List ServiceStatus))
  unfolding perform
  services = do
    body ← perform c x.decode_error (lit "GET") (lit "/api/v1/services") none
    ret (decode_body x.decode_services (lit "/api/v1/services") body)

  abbrev pub history_path : Text → ℕ → Text
  history_path service n =
      lit "/api/v1/services/" ++ x.escape service ++ lit "/history?n=" ++ itoa n

  unfoldable pub history : Text → ℕ → Script http (Result (List HistoryEntry))
  unfolding perform
  history service n = do
    body ← perform c x.decode_error (lit "GET") (history_path service n) none
    ret (decode_body x.decode_history (history_path service n) body)

  abbrev pub start_path : Text → Text → Text
  start_path action service = lit "/api/v1/services/" ++ x.escape service ++ lit "/" ++ action

  -- A converge has no digest to send.
  abbrev pub digest_body : Text → Text → Option Text
  digest_body action digest = if action == lit "converge" then none else some digest

  unfoldable pub start_deploy : Text → Text → Text → Script http (Result ℕ)
  unfolding perform
  start_deploy action service digest = do
    body ←
        perform c x.decode_error (lit "POST") (start_path action service)
          (digest_body action digest)
    ret (decode_body x.decode_started (start_path action service) body)

  abbrev pub stream_of : Result (Response × List Text) → Result (List Text)
  stream_of (err e) = err (failed (lit "connect to the event stream") e)
  stream_of (ok (r, lines)) =
      if eqb r.code 200
      then ok lines
      else err (errors_new (lit "event stream: " ++ describe c x.decode_error r))

  abbrev pub open_with : Result (Option Text) → Script http (Result (List Text))
  open_with (err e) = ret (err e)
  open_with (ok token) = do
    r ← query (open_stream (c.base_url ++ lit "/api/v1/events") token)
    ret (stream_of r)

  unfoldable pub open_events : Script http (Result (List Text))
  unfolding new_request describe
  open_events = do token ← new_request c (lit "GET") (lit "/api/v1/events"); open_with token
