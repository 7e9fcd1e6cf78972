-- ===== src/Tests/Streamed.antt =====
-- The theorem on the event stream, with a small encoding of events.
use snowdeploy.Base.{
  itoa, All, false, ℕ, zero, suc, Text, lit, ◌≡◌, refl, ap, true, Bool, List, [], ◌∷◌, Option, none,
  some, Result, ok,
}
use snowdeploy.Effect.{Event}
use snowdeploy.Journal.Defs.{Action, State}
use snowdeploy.Daemon.Orphans.{state_text}
use snowdeploy.Cli.Follow.{StreamEvent}
use snowdeploy.Api.Tokens.{too_long}
use snowdeploy.Api.Frames.{Signal, tick, delivered, done, handle_events}
use snowdeploy.Api.Frames.Received.{view, events_in, own_views, read_all, handle_events-read}

abbrev state_code : State → ℕ
state_code State.detected = 0
state_code State.pr_open = 1
state_code State.checks = 2
state_code State.merged = 3
state_code State.reconciling = 4
state_code State.probing = 5
state_code State.healthy = 6
state_code State.rolled_back = 7
state_code State.failed = 8

abbrev code_text : ℕ → Text
code_text zero = lit "detected"
code_text (suc zero) = lit "pr-open"
code_text (suc (suc zero)) = lit "checks"
code_text (suc (suc (suc zero))) = lit "merged"
code_text (suc (suc (suc (suc zero)))) = lit "reconciling"
code_text (suc (suc (suc (suc (suc zero))))) = lit "probing"
code_text (suc (suc (suc (suc (suc (suc zero)))))) = lit "healthy"
code_text (suc (suc (suc (suc (suc (suc (suc zero))))))) = lit "rolled-back"
code_text (suc (suc (suc (suc (suc (suc (suc (suc n)))))))) = lit "failed"

state_text-code : (st : State) → code_text (state_code st) ≡ state_text st
state_text-code State.detected = refl
state_text-code State.pr_open = refl
state_text-code State.checks = refl
state_text-code State.merged = refl
state_text-code State.reconciling = refl
state_text-code State.probing = refl
state_text-code State.healthy = refl
state_text-code State.rolled_back = refl
state_text-code State.failed = refl

abbrev encode : Event → Result Text
encode ev = ok (state_code ev.state ∷ ev.journal_id ∷ ev.detail)

abbrev decode : Text → Option StreamEvent
decode (code ∷ id ∷ detail) =
    some (record { state = code_text code; detail = detail; journal_id = id })
decode payload = none

abbrev always : ℕ → Bool
always n = true

codes :
    (ev : Event) → (payload : Text) × (encode ev ≡ ok payload) × (decode payload ≡ some (view ev))
codes ev = (
  state_code ev.state ∷ ev.journal_id ∷ ev.detail,
  refl,
  ap (λ (t : Text). some (record { state = t; detail = ev.detail; journal_id = ev.journal_id }))
      (state_text-code ev.state),
)

abbrev event_of : ℕ → State → Event
event_of id st = record {
  service = lit "web";
  action = Action.deploy;
  state = st;
  detail = [];
  journal_id = id;
  pr_number = 0;
  pr_url = [];
  merge_url = [];
  at = 5;
}

abbrev received : List Signal
received =
    delivered (event_of 7 State.merged) ∷ tick ∷ delivered (event_of 8 State.checks) ∷ done ∷ []

short_lines :
    All
      (λ line. too_long line ≡ false)
      (handle_events encode always (event_of 7 State.checks ∷ []) received).written
unfolding handle_events lit itoa
short_lines = (
  refl,
  (
    refl,
    (
      refl,
      (refl, (refl, (refl, (refl, (refl, (refl, (refl, (refl, (refl, (refl, (refl, tt))))))))))),
    ),
  ),
)

handle_events-read_example :
    read_all decode 7 (handle_events encode always (event_of 7 State.checks ∷ []) received).written
    ≡ own_views decode 7 (event_of 7 State.checks ∷ events_in received)
handle_events-read_example =
    handle_events-read decode 7 encode always (event_of 7 State.checks ∷ []) received codes
      (λ n. refl) short_lines
