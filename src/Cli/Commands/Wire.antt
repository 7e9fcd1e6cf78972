-- ===== src/Cli/Commands/Wire.antt =====
-- What goes over the wire for a followed command, up to the start (cmd/snowdeploy/main.go,
-- client.go).
use snowdeploy.Base.{
  ℕ, Text, lit, is_empty, ◌≡◌, ◌≢◌, ◌↔◌, ◌⊎◌, ◌==◌, ◌&&◌, eqb, true, false, In, List, [], ◌++◌,
  Option, none, some, Result, ok, err, if◌then◌else◌,
}
use snowdeploy.Script.{Contract}
use snowdeploy.Cli.Client.{
  http, Query, read_token, build_request, send, open_stream, Reply, Response, Client, ServiceStatus,
  Codec, is_success,
}
use snowdeploy.Cli.Follow.{StreamEvent}
use snowdeploy.Cli.Follow.Verdict.{own_events, EndsHealthy}

-- What went over the wire: no stream yet, with the last answer; a stream that is open with its lines;
-- and the answer to the start that was sent behind it.
pub data Wire : Type 0 where
  fresh : Option (Result Response) → Wire
  watching : Option (Result Response) → List Text → Wire
  posted : List Text → Result Response → Wire

module _ (x : Codec) (c : Client) (action service digest : Text) where
  -- The answer was accepted and lists the services.
  abbrev pub Lists : Option (Result Response) → List ServiceStatus → Type 0
  Lists none rows = ⊥
  Lists (some (err e)) rows = ⊥
  Lists (some (ok r)) rows = (is_success r.code ≡ true) × (x.decode_services r.body ≡ ok rows)

  -- The digest to deploy: the given one, or, for a bare deploy, the latest available one in a row of
  -- the service that the daemon listed.
  abbrev pub IsTarget : Option (Result Response) → Text → Type 0
  IsTarget k target =
      (((is_empty digest && action == lit "deploy") ≡ false) × (target ≡ digest))
      ⊎ (((is_empty digest && action == lit "deploy") ≡ true)
          × (rows : List ServiceStatus) × (row : ServiceStatus) × Lists k rows
          × In row rows
          × (row.name ≡ service)
          × (row.latest_available ≡ target)
          × (target ≢ []))

  -- A converge carries no digest.
  abbrev pub MayCarry : Option (Result Response) → Option Text → Type 0
  MayCarry k body =
      ((action ≡ lit "converge") × (body ≡ none))
      ⊎ ((action ≢ lit "converge") × (target : Text) × (body ≡ some target) × IsTarget k target)

  abbrev SendAllowed : Wire → Text → Text → Option Text → Type 0
  SendAllowed (fresh k) method url body =
      (method ≡ lit "GET") × (url ≡ c.base_url ++ lit "/api/v1/services") × (body ≡ none)
  SendAllowed (watching k lines) method url body =
      (method ≡ lit "POST")
      × (url ≡ c.base_url ++ (lit "/api/v1/services/" ++ x.escape service ++ lit "/" ++ action))
      × MayCarry k body
  SendAllowed (posted lines r) method url body = ⊥

  abbrev OpenAllowed : Wire → Text → Type 0
  OpenAllowed (fresh k) url = url ≡ c.base_url ++ lit "/api/v1/events"
  OpenAllowed (watching k lines) url = ⊥
  OpenAllowed (posted lines r) url = ⊥

  abbrev WireAllowed : Wire → Query → Type 0
  WireAllowed w (read_token path) = path ≡ c.token_file
  WireAllowed w (build_request method url) = Unit
  WireAllowed w (send method url body token) = SendAllowed w method url body
  WireAllowed w (open_stream url token) = OpenAllowed w url

  abbrev after_send : Wire → Result Response → Wire
  after_send (fresh k) r = fresh (some r)
  after_send (watching k lines) r = posted lines r
  after_send (posted lines first) r = posted lines first

  abbrev opened_by : Option (Result Response) → Result (Response × List Text) → Wire
  opened_by k (err e) = fresh k
  opened_by k (ok (r, lines)) = if eqb r.code 200 then watching k lines else fresh k

  abbrev after_open : Wire → Result (Response × List Text) → Wire
  after_open (fresh k) r = opened_by k r
  after_open (watching k lines) r = watching k lines
  after_open (posted lines first) r = posted lines first

  abbrev wire_after : Wire → (q : Query) → Reply q → Wire
  wire_after w (read_token path) r = w
  wire_after w (build_request method url) r = w
  wire_after w (send method url digest token) r = after_send w r
  wire_after w (open_stream url token) r = after_open w r

  -- One stream is opened, and one start of that action of that service is sent, behind an answer of
  -- 200 to the stream; before that the command only asks for the services.
  abbrev pub following : Contract http
  following = record { Watch = Wire; Allowed = WireAllowed; after = wire_after }

-- The start was accepted under an id, and the run of that id ends healthy on the stream.
pub record Started (decode_started : Text → Result ℕ) (decode_event : Text → Option StreamEvent)
    (lines : List Text) (reply : Result Response) : Type 0 where
  pub response : Response
  pub journal_id : ℕ
  pub replied : reply ≡ ok response
  pub accepted : is_success response.code ≡ true
  pub numbered : decode_started response.body ≡ ok journal_id
  pub ends_healthy : EndsHealthy (own_events decode_event journal_id lines)

abbrev pub Succeeded : Codec → (Text → Option StreamEvent) → Wire → Type 0
Succeeded x decode_event (fresh k) = ⊥
Succeeded x decode_event (watching k lines) = ⊥
Succeeded x decode_event (posted lines r) = Started x.decode_started decode_event lines r

abbrev pub ExitsBy : Codec → (Text → Option StreamEvent) → ℕ → Wire → Type 0
ExitsBy x decode_event code w = (code ≡ 0) ↔ Succeeded x decode_event w
