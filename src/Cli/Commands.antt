-- ===== src/Cli/Commands.antt =====
-- cmd/snowdeploy/main.go: the commands, up to what they print. The flag package, url.Parse, the
-- decoders and the terminal are parameters.
pub mod Wire
pub mod Posted
pub mod Followed
use snowdeploy.Base.{
  ℕ, zero, suc, ◌+◌, ◌-◌, Text, lit, ◌==◌, is_empty, has_prefix, trim_prefix, take, length, ltb,
  leb, eqb, map, Bool, true, false, not, ◌||◌, ◌&&◌, List, [], ◌∷◌, ◌++◌, Option, none, some, Error,
  errors_new, wrap, Result, ok, err, if◌then◌else◌,
}
use snowdeploy.Script.{Script, ret, ◌>>=◌, ◌>>◌, query}
use snowdeploy.Cli.Client.{
  http, Client, new_client, HistoryEntry, ServiceStatus, Codec, services, start_deploy, open_events,
}
use snowdeploy.Cli.Follow.{StreamEvent, follow}

unfoldable pub short : Text → Text
unfolding trim_prefix
short digest = if is_empty digest then lit "-" else take 12 (trim_prefix digest (lit "sha256:"))

-- inFlight
abbrev pub in_flight : Option HistoryEntry → Bool
in_flight none = false
in_flight (some e) = not e.finished

abbrev flight_text : Option HistoryEntry → Text
flight_text none = []
flight_text (some e) = e.action ++ lit " in flight (" ++ e.state ++ lit ")"

-- The STATE column of `snowdeploy status`.
unfoldable pub state_of : ServiceStatus → Text
state_of s =
    if in_flight s.last_deploy
    then flight_text s.last_deploy
    else if s.drifted
    then lit "DRIFTED"
    else if not (is_empty s.latest_available) && not (s.latest_available == s.manifest_digest)
    then lit "update available"
    else lit "in sync"

-- What the flag package finds: the flags, and the arguments behind them.
pub record Flags : Type 0 where
  pub server : Text
  pub token_file : Text
  pub digest : Text

module _ (parse : List Text → Result (Flags × List Text)) where
  abbrev no_extra : Text → Result (Flags × List Text) → Result (Flags × Text)
  no_extra operand (err e) = err e
  no_extra operand (ok (flags, [])) = ok (flags, operand)
  no_extra operand (ok (flags, a ∷ args)) = err (errors_new (lit "unexpected extra arguments"))

  abbrev one_operand : Result (Flags × List Text) → Result (Flags × Text)
  one_operand (err e) = err e
  one_operand (ok (flags, operand ∷ [])) = ok (flags, operand)
  one_operand (ok (flags, args)) = err (errors_new (lit "exactly one operand is required"))

  unfoldable pub parse_with_operand : List Text → Result (Flags × Text)
  unfolding has_prefix
  parse_with_operand [] = one_operand (parse [])
  parse_with_operand (a ∷ args) =
      if has_prefix a (lit "-") then one_operand (parse (a ∷ args)) else no_extra a (parse args)

-- The loop over the services.
abbrev latest_in : Text → List ServiceStatus → Result Text
latest_in service [] = err (errors_new (lit "no such service: " ++ service))
latest_in service (s ∷ rows) =
    let rest = latest_in service rows in
    if s.name == service
    then if is_empty s.latest_available
      then err (errors_new (lit "no digest is known for " ++ service ++ lit " yet; pass --digest"))
      else ok s.latest_available
    else rest

abbrev latest_listed : Text → Result (List ServiceStatus) → Result Text
latest_listed service (err e) = err e
latest_listed service (ok rows) = latest_in service rows

abbrev pub started : (Text → Option StreamEvent) → List Text → Result ℕ → ℕ
started decode_event lines (err e) = 1
started decode_event lines (ok journal_id) = follow decode_event journal_id lines

module _ (x : Codec) (c : Client) where
  unfoldable pub latest_for : Text → Script http (Result Text)
  unfolding services
  latest_for service = do rows ← services x c; ret (latest_listed service rows)

  module _ (decode_event : Text → Option StreamEvent) (action service : Text) where
    -- Subscribed before the start.
    abbrev pub subscribed : Text → Result (List Text) → Script http ℕ
    subscribed target (err e) = ret 1
    subscribed target (ok lines) = do
      id ← start_deploy x c action service target
      ret (started decode_event lines id)

    abbrev pub targeted : Result Text → Script http ℕ
    targeted (err e) = ret 1
    targeted (ok target) = do lines ← open_events x c; subscribed target lines

    -- The digest of a bare deploy is the latest.
    abbrev pub target_of : Text → Script http (Result Text)
    target_of digest =
        if is_empty digest && action == lit "deploy" then latest_for service else ret (ok digest)

    unfoldable pub followed : Text → Script http ℕ
    unfolding latest_for open_events start_deploy follow
    followed digest = do target ← target_of digest; targeted target

module _ (quote : Text → Text) (parse_url : Text → Option Error) (x : Codec)
    (decode_event : Text → Option StreamEvent)
    (parse : List Text → Result (Flags × List Text)) where
  abbrev connected : Text → Text → Text → Result Client → Script http ℕ
  connected action service digest (err e) = ret 1
  connected action service digest (ok c) = followed x c decode_event action service digest

  abbrev operand_parsed : Text → Result (Flags × Text) → Script http ℕ
  operand_parsed action (err e) = ret 2
  operand_parsed action (ok (flags, service)) =
      connected action service flags.digest
        (new_client quote parse_url flags.server flags.token_file)

  -- The exit code of deploy, rollback and converge.
  unfoldable pub followed_command : Text → List Text → Script http ℕ
  unfolding followed new_client parse_with_operand
  followed_command action args = operand_parsed action (parse_with_operand parse args)
