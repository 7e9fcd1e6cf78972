-- ===== src/Api/Frames/Received.antt =====
-- What the command line client reads of the stream that the server writes (internal/api/sse.go,
-- cmd/snowdeploy/client.go).
use snowdeploy.Base.{
  ℕ, zero, suc, ◌+◌, ◌<◌, length, arith, All, false, Text, lit, ◌≡◌, refl, sym, ap, ◌∙◌, has_prefix,
  drop_prefix, trim_prefix, append_assoc, append-nil, Bool, true, List, [], ◌∷◌, ◌++◌, Option, none,
  some, Result, ok,
}
use snowdeploy.Effect.{Event}
use snowdeploy.Api.Tokens.{too_long}
use snowdeploy.Cli.Follow.{StreamEvent, next_event}
use snowdeploy.Cli.Follow.Verdict.{prepend, of_run, told_by, own_events, IsNext, next_event-IsNext}
use snowdeploy.Daemon.Orphans.{state_text}
use snowdeploy.Api.Frames.{
  Signal, done, tick, closed, delivered, Stream, start, frame, keep_alive, write_frame,
  write_snapshot, serve, handle_events,
}

-- An event as the client decodes it.
abbrev pub view : Event → StreamEvent
view ev = record { state = state_text ev.state; detail = ev.detail; journal_id = ev.journal_id }

-- The events of the signals, up to the end of the connection.
abbrev pub events_in : List Signal → List Event
events_in [] = []
events_in (done ∷ signals) = []
events_in (closed ∷ signals) = []
events_in (tick ∷ signals) = events_in signals
events_in (delivered ev ∷ signals) = ev ∷ events_in signals

module _ (decode : Text → Option StreamEvent) (id : ℕ) where
  -- What the client makes of an event: nothing, if it is of another run.
  abbrev pub own_views : List Event → List StreamEvent
  own_views [] = []
  own_views (ev ∷ evs) = prepend (of_run decode id (view ev)) (own_views evs)

  -- The run's events in lines that the client's scanner does not give up on.
  abbrev all_events : List Text → List StreamEvent
  all_events [] = []
  all_events (line ∷ lines) = prepend (told_by decode id line) (all_events lines)

  all_events-own_events :
      (lines : List Text)
      → All (λ line. too_long line ≡ false) lines
      → own_events decode id lines ≡ all_events lines
  all_events-own_events [] h = refl
  all_events-own_events (line ∷ lines) h = rw (h.0) (
      ap (λ (l : List StreamEvent). prepend (told_by decode id line) l)
        (all_events-own_events lines h.1))

  -- What the client reads, one event after the other, until there is none.
  abbrev pub read_from : ℕ → List Text → List StreamEvent
  read_from zero lines = []
  read_from (suc fuel) lines = elim (next_event decode id lines) [
    | none ↦ []
    | some (ev, rest) ↦ ev ∷ read_from fuel rest
  ]

  abbrev pub read_all : List Text → List StreamEvent
  read_all lines = read_from (suc (length lines)) lines

  read_from-own_events :
      (fuel : ℕ) (lines : List Text)
      → length lines < fuel
      → read_from fuel lines ≡ own_events decode id lines
  read_from-own_events zero lines h = absurd (omega arith)
  read_from-own_events (suc fuel) lines h =
      of_next (next_event decode id lines) (next_event-IsNext decode id lines)
        (λ rest shorter. read_from-own_events fuel rest (omega arith))
    where
      of_next :
          (o : Option (StreamEvent × List Text))
          → IsNext decode id lines o
          → ((rest : List Text)
              → length rest < length lines
              → read_from fuel rest ≡ own_events decode id rest)
          → (elim o [ none ↦ [] | some (ev, rest) ↦ ev ∷ read_from fuel rest ])
            ≡ own_events decode id lines
      of_next none n again = sym n
      of_next (some (ev, rest)) n again =
          ap (λ (l : List StreamEvent). ev ∷ l) (again rest n.1) ∙ sym n.0

  prepend-append :
      (o : Option StreamEvent) (xs ys : List StreamEvent)
      → prepend o xs ++ ys ≡ prepend o (xs ++ ys)
  prepend-append none xs ys = refl
  prepend-append (some ev) xs ys = refl

  all_events-append : (xs ys : List Text) → all_events (xs ++ ys) ≡ all_events xs ++ all_events ys
  all_events-append [] ys = refl
  all_events-append (line ∷ xs) ys =
      ap (λ (l : List StreamEvent). prepend (told_by decode id line) l) (all_events-append xs ys)
      ∙ sym (prepend-append (told_by decode id line) (all_events xs) (all_events ys))

  all_events-keep_alive : all_events keep_alive ≡ []
  unfolding lit has_prefix
  all_events-keep_alive = refl

  all_events-frame :
      (seq : ℕ) (ev : Event) (payload : Text)
      → decode payload ≡ some (view ev)
      → all_events (frame seq ev payload) ≡ prepend (of_run decode id (view ev)) []
  unfolding lit has_prefix trim_prefix drop_prefix
  all_events-frame seq ev payload h = rw h refl

  own_views-append : (xs ys : List Event) → own_views (xs ++ ys) ≡ own_views xs ++ own_views ys
  own_views-append [] ys = refl
  own_views-append (ev ∷ xs) ys =
      ap (λ (l : List StreamEvent). prepend (of_run decode id (view ev)) l) (own_views-append xs ys)
      ∙ sym (prepend-append (of_run decode id (view ev)) (own_views xs) (own_views ys))

  module _ (marshal : Event → Result Text) (writes : ℕ → Bool)
      (codes : (ev : Event)
        → (payload : Text) × (marshal ev ≡ ok payload) × (decode payload ≡ some (view ev)))
      (holds : (n : ℕ) → writes n ≡ true) where
    abbrev seen : Stream → List StreamEvent
    seen s = all_events s.written

    -- The write went through, and the client reads what the events show behind what it read before.
    abbrev Shows : List Event → Stream → Bool × Stream → Type 0
    Shows evs s (went, s') = (went ≡ true) × (seen s' ≡ seen s ++ own_views evs)

    write_frame-Shows :
        (ev : Event) (s : Stream) → Shows (ev ∷ []) s (write_frame marshal writes ev s)
    unfolding write_frame
    write_frame-Shows ev s =
        let (payload, encoded, back) = codes ev in
        let lines = frame (s.seq + 1) ev payload in
        rw encoded (
          rw (holds s.attempts) (
            refl,
            all_events-append s.written lines
                ∙ ap (λ (l : List StreamEvent). seen s ++ l)
                    (all_events-frame (s.seq + 1) ev payload back),
          ))

    -- One event, and those behind it.
    shown_then :
        (ev : Event) (evs : List Event) (s s1 s2 : Stream)
        → seen s1 ≡ seen s ++ own_views (ev ∷ [])
        → seen s2 ≡ seen s1 ++ own_views evs
        → seen s2 ≡ seen s ++ own_views (ev ∷ evs)
    shown_then ev evs s s1 s2 first later =
        later
        ∙ ap (λ (l : List StreamEvent). l ++ own_views evs) first
        ∙ append_assoc (seen s) (own_views (ev ∷ [])) (own_views evs)
        ∙ ap (λ (l : List StreamEvent). seen s ++ l) (sym (own_views-append (ev ∷ []) evs))

    write_snapshot-Shows :
        (evs : List Event) (s : Stream) → Shows evs s (write_snapshot marshal writes evs s)
    unfolding write_snapshot
    write_snapshot-Shows [] s = (refl, sym (append-nil (seen s)))
    write_snapshot-Shows (ev ∷ evs) s =
        let (went, first) = write_frame-Shows ev s in
        let s1 = (write_frame marshal writes ev s).1 in
        let (rest_went, later) = write_snapshot-Shows evs s1 in
        rw went
          (rest_went, shown_then ev evs s s1 (write_snapshot marshal writes evs s1).1 first later)

    seen-keep_alive : (s : Stream) → all_events (s.written ++ keep_alive) ≡ seen s
    seen-keep_alive s =
        all_events-append s.written keep_alive
        ∙ ap (λ (l : List StreamEvent). seen s ++ l) all_events-keep_alive
        ∙ append-nil (seen s)

    serve-Shows :
        (signals : List Signal) (s : Stream)
        → seen (serve marshal writes signals s) ≡ seen s ++ own_views (events_in signals)
    unfolding serve
    serve-Shows [] s = sym (append-nil (seen s))
    serve-Shows (done ∷ signals) s = sym (append-nil (seen s))
    serve-Shows (closed ∷ signals) s = sym (append-nil (seen s))
    serve-Shows (tick ∷ signals) s = rw (holds s.attempts) (
        serve-Shows signals
          (record s { attempts = s.attempts + 1; written = s.written ++ keep_alive })
        ∙ ap (λ (l : List StreamEvent). l ++ own_views (events_in signals)) (seen-keep_alive s))
    serve-Shows (delivered ev ∷ signals) s =
        let (went, first) = write_frame-Shows ev s in
        let s1 = (write_frame marshal writes ev s).1 in
        rw went (
          shown_then ev (events_in signals) s s1 (serve marshal writes signals s1) first
            (serve-Shows signals s1))

handle_events-all :
    (decode : Text → Option StreamEvent) (id : ℕ) (marshal : Event → Result Text)
    (writes : ℕ → Bool) (snapshot : List Event) (signals : List Signal)
    → ((ev : Event)
        → (payload : Text) × (marshal ev ≡ ok payload) × (decode payload ≡ some (view ev)))
    → ((n : ℕ) → writes n ≡ true)
    → all_events decode id (handle_events marshal writes snapshot signals).written
      ≡ own_views decode id (snapshot ++ events_in signals)
unfolding handle_events
handle_events-all decode id marshal writes snapshot signals codes holds =
    let (went, first) = write_snapshot-Shows decode id marshal writes codes holds snapshot start in
    let s = (write_snapshot marshal writes snapshot start).1 in
    rw went (
      serve-Shows decode id marshal writes codes holds signals s
      ∙ ap (λ (l : List StreamEvent). l ++ own_views decode id (events_in signals)) first
      ∙ sym (own_views-append decode id snapshot (events_in signals)))

-- Where the client decodes what the server encodes, no write fails and no line that is written is as
-- long as 64 KiB, at which the client gives up, the client reads from the lines of a stream the events
-- of the snapshot and then those that were delivered before the connection ended, in their order, each
-- once, and nothing else; of the run that it follows, or of all for no id.
pub handle_events-read :
    (decode : Text → Option StreamEvent) (id : ℕ) (marshal : Event → Result Text)
    (writes : ℕ → Bool) (snapshot : List Event) (signals : List Signal)
    → ((ev : Event)
        → (payload : Text) × (marshal ev ≡ ok payload) × (decode payload ≡ some (view ev)))
    → ((n : ℕ) → writes n ≡ true)
    → All (λ line. too_long line ≡ false) (handle_events marshal writes snapshot signals).written
    → read_all decode id (handle_events marshal writes snapshot signals).written
      ≡ own_views decode id (snapshot ++ events_in signals)
handle_events-read decode id marshal writes snapshot signals codes holds short =
    let lines = (handle_events marshal writes snapshot signals).written in
    read_from-own_events decode id (suc (length lines)) lines (omega arith)
    ∙ all_events-own_events decode id lines short
    ∙ handle_events-all decode id marshal writes snapshot signals codes holds
