-- ===== src/Api/Frames.antt =====
-- handleEvents of internal/api/sse.go: the frames of a stream. What is written is the list of its
-- lines, since a payload of encoding/json has no line break. The encoder, and whether the n-th write
-- succeeds, are parameters; the snapshot and what the select receives are given.
pub mod Received
use snowdeploy.Base.{
  ℕ, ◌+◌, Text, lit, itoa, Bool, true, false, List, [], ◌∷◌, ◌++◌, Result, ok, err, if◌then◌else◌,
}
use snowdeploy.Effect.{Event}

-- What the select of the loop receives.
pub data Signal : Type 0 where
  done tick closed : Signal
  delivered : Event → Signal

pub record Stream : Type 0 where
  pub seq : ℕ
  pub attempts : ℕ
  pub written : List Text

abbrev pub start : Stream
start = record { seq = 0; attempts = 0; written = [] }

abbrev pub frame : ℕ → Event → Text → List Text
frame seq ev payload =
    (lit "id: " ++ itoa ev.journal_id ++ lit "-" ++ itoa seq)
    ∷ lit "event: state"
    ∷ (lit "data: " ++ payload)
    ∷ []
    ∷ []

abbrev pub keep_alive : List Text
keep_alive = lit ": keep-alive" ∷ [] ∷ []

module _ (marshal : Event → Result Text) (writes : ℕ → Bool) where
  -- Whether the write succeeded, and the stream behind it.
  abbrev pub write : List Text → Stream → Bool × Stream
  write lines s =
      if writes s.attempts
      then (true, record s { attempts = s.attempts + 1; written = s.written ++ lines })
      else (false, record s { attempts = s.attempts + 1 })

  abbrev pub write_payload : Event → Result Text → Stream → Bool × Stream
  write_payload ev (err e) s = (true, s)
  write_payload ev (ok payload) s =
      write (frame (s.seq + 1) ev payload) (record s { seq = s.seq + 1 })

  unfoldable pub write_frame : Event → Stream → Bool × Stream
  write_frame ev s = write_payload ev (marshal ev) s

  -- The loop over the snapshot.
  unfoldable pub write_snapshot : List Event → Stream → Bool × Stream
  unfolding write_frame
  write_snapshot [] s = (true, s)
  write_snapshot (ev ∷ evs) s =
      let (went, s') = write_frame ev s in
      let rest = write_snapshot evs s' in if went then rest else (false, s')

  -- The loop over what the select receives, up to the end of the connection or of the list.
  unfoldable pub serve : List Signal → Stream → Stream
  unfolding write_frame
  serve [] s = s
  serve (done ∷ signals) s = s
  serve (closed ∷ signals) s = s
  serve (tick ∷ signals) s =
      let (went, s') = write keep_alive s in
      let rest = serve signals s' in if went then rest else s'
  serve (delivered ev ∷ signals) s =
      let (went, s') = write_frame ev s in let rest = serve signals s' in if went then rest else s'

  -- Behind the header and the subscription.
  unfoldable pub handle_events : List Event → List Signal → Stream
  unfolding write_snapshot serve
  handle_events snapshot signals =
      let (went, s) = write_snapshot snapshot start in if went then serve signals s else s
