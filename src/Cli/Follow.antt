-- ===== src/Cli/Follow.antt =====
-- nextEvent of cmd/snowdeploy/client.go and follow of main.go. The lines of the event stream, up to
-- its end, and the JSON decoder are parameters.
pub mod Verdict
use snowdeploy.Base.{
  ℕ, zero, suc, ◌+◌, Text, lit, ◌==◌, has_prefix, trim_prefix, eqb, length, Bool, true, false, not,
  ◌||◌, ◌&&◌, List, [], ◌∷◌, Option, none, some, if◌then◌else◌,
}
use snowdeploy.Api.Tokens.{too_long}

-- The fields of a streamed transition that are looked at.
pub record StreamEvent : Type 0 where
  pub state : Text
  pub detail : Text
  pub journal_id : ℕ

abbrev pub is_terminal : Text → Bool
is_terminal s = s == lit "healthy" || s == lit "rolled-back" || s == lit "failed"

module _ (decode : Text → Option StreamEvent) (journal_id : ℕ) where
  -- An event of another run is passed over, unless the run has no id.
  abbrev pub own_event : StreamEvent → Option StreamEvent
  own_event ev =
      if not (eqb journal_id 0) && not (eqb ev.journal_id journal_id) then none else some ev

  abbrev pub decoded : Option StreamEvent → Option StreamEvent
  decoded none = none
  decoded (some ev) = own_event ev

  -- What one line of the stream is for the loop.
  abbrev pub line_event : Text → Option StreamEvent
  line_event line =
      if has_prefix line (lit "data: ")
      then decoded (decode (trim_prefix line (lit "data: ")))
      else none

  -- The scanner gives up at a line that is too long for it.
  abbrev pub scanned_event :
      Bool
      → Option StreamEvent
      → List Text
      → Option (StreamEvent × List Text)
      → Option (StreamEvent × List Text)
  scanned_event true o lines further = none
  scanned_event false none lines further = further
  scanned_event false (some ev) lines further = some (ev, lines)

  -- The event, and the lines behind it.
  unfoldable pub next_event : List Text → Option (StreamEvent × List Text)
  next_event [] = none
  next_event (line ∷ lines) =
      scanned_event (too_long line) (line_event line) lines (next_event lines)

  -- The exit code. Each round takes a line at least, so the lines bound the rounds.
  unfoldable pub follow_from : ℕ → List Text → ℕ
  unfolding next_event
  follow_from zero lines = 1
  follow_from (suc fuel) lines = elim (next_event lines) [
    | none ↦ 1
    | some (ev, rest) ↦
        let further = follow_from fuel rest in
        if is_terminal ev.state then if ev.state == lit "healthy" then 0 else 1 else further
  ]

  unfoldable pub follow : List Text → ℕ
  unfolding follow_from
  follow lines = follow_from (suc (length lines)) lines
