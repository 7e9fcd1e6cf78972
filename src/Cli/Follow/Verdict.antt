-- ===== src/Cli/Follow/Verdict.antt =====
-- What the exit code of a followed command says (cmd/snowdeploy/main.go).
use mathlib.Core.Path.{subst}
use snowdeploy.Base.{
  ℕ, zero, suc, ◌<◌, Text, lit, ◌≡◌, ◌≢◌, refl, sym, ap, ◌∙◌, inl, inr, ◌↔◌, ◌==◌, ==→eq, ==_iff,
  ==→ne, eqb, has_prefix, trim_prefix, length, Bool, true, false, ◌||◌, All, List, [], ◌∷◌, ◌++◌,
  Option, none, some, Bool-cases, arith, if◌then◌else◌,
}
use snowdeploy.Api.Tokens.{too_long}
use snowdeploy.Cli.Follow.{
  StreamEvent, is_terminal, own_event, decoded, line_event, scanned_event, next_event, follow_from,
  follow,
}

-- The events of the run on the stream, in their order.
abbrev pub prepend : Option StreamEvent → List StreamEvent → List StreamEvent
prepend none evs = evs
prepend (some ev) evs = ev ∷ evs

-- The exit code of a list of events: that of the first terminal one.
abbrev pub exit_of : List StreamEvent → ℕ
exit_of [] = 1
exit_of (ev ∷ evs) =
    let rest = exit_of evs in
    if is_terminal ev.state then if ev.state == lit "healthy" then 0 else 1 else rest

module _ (decode : Text → Option StreamEvent) (journal_id : ℕ) where
  -- An event of the run; without an id, any event.
  abbrev pub of_run : StreamEvent → Option StreamEvent
  of_run ev = if eqb journal_id 0 || eqb ev.journal_id journal_id then some ev else none

  abbrev of_payload : Option StreamEvent → Option StreamEvent
  of_payload none = none
  of_payload (some ev) = of_run ev

  -- What a line tells: the payload behind "data: ", where it decodes to an event of the run.
  abbrev pub told_by : Text → Option StreamEvent
  told_by line =
      if has_prefix line (lit "data: ")
      then of_payload (decode (trim_prefix line (lit "data: ")))
      else none

  -- The run's events up to the first line of 64 KiB or more, at which the client stops to read.
  abbrev pub own_events : List Text → List StreamEvent
  own_events [] = []
  own_events (line ∷ lines) =
      let rest = own_events lines in if too_long line then [] else prepend (told_by line) rest

  own_event-of_run : (ev : StreamEvent) → own_event decode journal_id ev ≡ of_run ev
  own_event-of_run ev = elim (Bool-cases (eqb journal_id 0)) [
    | inl any ↦ rw any refl
    | inr one ↦ elim (Bool-cases (eqb ev.journal_id journal_id)) [
      | inl own ↦ rw (one, own) refl
      | inr other ↦ rw (one, other) refl
    ]
  ]

  decoded-of_payload : (o : Option StreamEvent) → decoded decode journal_id o ≡ of_payload o
  decoded-of_payload none = refl
  decoded-of_payload (some ev) = own_event-of_run ev

  line_event-told_by : (line : Text) → line_event decode journal_id line ≡ told_by line
  line_event-told_by line = rw (decoded-of_payload (decode (trim_prefix line (lit "data: ")))) refl

  -- What the next event is, among the run's own.
  abbrev pub IsNext : List Text → Option (StreamEvent × List Text) → Type 0
  IsNext lines none = own_events lines ≡ []
  IsNext lines (some (ev, rest)) =
      (own_events lines ≡ ev ∷ own_events rest) × (length rest < length lines)

  IsNext-cons :
      (line : Text) (lines : List Text) (o : Option (StreamEvent × List Text))
      → too_long line ≡ false
      → told_by line ≡ none
      → IsNext lines o
      → IsNext (line ∷ lines) o
  IsNext-cons line lines none short h n = rw (short, h) n
  IsNext-cons line lines (some (ev, rest)) short h n = (rw (short, h) (n.0), omega (arith, n.1))

  pub next_event-IsNext : (lines : List Text) → IsNext lines (next_event decode journal_id lines)
  unfolding next_event
  next_event-IsNext [] = refl
  next_event-IsNext (line ∷ lines) =
      of_line (too_long line) (line_event decode journal_id line) refl
        (sym (line_event-told_by line)) (next_event-IsNext lines)
    where
      of_line :
          (b : Bool) (o : Option StreamEvent)
          → too_long line ≡ b
          → told_by line ≡ o
          → IsNext lines (next_event decode journal_id lines)
          → IsNext
              (line ∷ lines)
              (scanned_event decode journal_id b o lines (next_event decode journal_id lines))
      of_line true o long h n = rw long refl
      of_line false none short h n = IsNext-cons line lines _ short h n
      of_line false (some ev) short h n = (rw (short, h) refl, omega arith)

  follow_from-exit_of :
      (fuel : ℕ) (lines : List Text)
      → length lines < fuel
      → follow_from decode journal_id fuel lines ≡ exit_of (own_events lines)
  unfolding follow_from
  follow_from-exit_of zero lines h = absurd (omega arith)
  follow_from-exit_of (suc fuel) lines h =
      of_next (next_event decode journal_id lines) (next_event-IsNext lines)
        (λ rest shorter. follow_from-exit_of fuel rest (omega arith))
    where
      of_next :
          (o : Option (StreamEvent × List Text))
          → IsNext lines o
          → ((rest : List Text)
              → length rest < length lines
              → follow_from decode journal_id fuel rest ≡ exit_of (own_events rest))
          → (elim o [
            | none ↦ 1
            | some (ev, rest) ↦
                let further = follow_from decode journal_id fuel rest in
                if is_terminal ev.state then if ev.state == lit "healthy" then 0 else 1 else further
          ])
            ≡ exit_of (own_events lines)
      of_next none n again = rw n refl
      of_next (some (ev, rest)) n again = rw (n.0, again rest n.1) refl

-- The first event that ends the run is the healthy one.
pub record EndsHealthy (evs : List StreamEvent) : Type 0 where
  pub before : List StreamEvent
  pub last : StreamEvent
  pub behind : List StreamEvent
  pub split : evs ≡ before ++ last ∷ behind
  pub running : All (λ ev. is_terminal ev.state ≡ false) before
  pub healthy : last.state ≡ lit "healthy"

healthy-is_terminal : (s : Text) → s ≡ lit "healthy" → is_terminal s ≡ true
healthy-is_terminal s e =
    ap (λ (b : Bool). b || s == lit "rolled-back" || s == lit "failed")
      ((==_iff s (lit "healthy")).1 e)

abbrev exit_code : Text → ℕ
exit_code s = if s == lit "healthy" then 0 else 1

one_zero : ◌≡◌ {A = ℕ} 1 0 → ⊥
one_zero h = omega arith

exit_code-zero : (s : Text) → (exit_code s ≡ 0) ↔ (s ≡ lit "healthy")
exit_code-zero s = elim (Bool-cases (s == lit "healthy")) [
  | inl e ↦ (λ h. ==→eq s (lit "healthy") e, λ h. rw e refl)
  | inr e ↦ (λ h. absurd (one_zero (rw e at h)), λ h. absurd (==→ne s (lit "healthy") e h))
]

first_event :
    (ev last : StreamEvent) (evs before behind : List StreamEvent)
    → ev ∷ evs ≡ before ++ last ∷ behind
    → is_terminal ev.state ≡ true
    → All (λ v. is_terminal v.state ≡ false) before
    → ev ≡ last
first_event ev last evs [] behind e t r = cc
first_event ev last evs (v ∷ vs) behind e t r =
    let same : v ≡ ev = cc in cc (subst (λ (w : StreamEvent). is_terminal w.state ≡ false) same r.0)

ends_now :
    (ev : StreamEvent) (evs : List StreamEvent)
    → is_terminal ev.state ≡ true
    → (exit_code ev.state ≡ 0) ↔ EndsHealthy (ev ∷ evs)
ends_now ev evs t = (
  λ h. record {
    before = [];
    last = ev;
    behind = evs;
    split = refl;
    running = tt;
    healthy = (exit_code-zero ev.state).0 h;
  },
  λ e. (exit_code-zero ev.state).1 (
      subst (λ (v : StreamEvent). v.state ≡ lit "healthy")
        (sym (first_event ev e.last evs e.before e.behind e.split t e.running)) e.healthy),
)

no_events : (before behind : List StreamEvent) (last : StreamEvent) → [] ≢ before ++ last ∷ behind
no_events [] behind last h = cc
no_events (v ∷ vs) behind last h = cc

ends_later :
    (ev : StreamEvent) (evs : List StreamEvent)
    → is_terminal ev.state ≡ false
    → EndsHealthy evs ↔ EndsHealthy (ev ∷ evs)
ends_later ev evs r = (there, λ e. back e.before e.last e.behind e.split e.running e.healthy)
  where
    there : EndsHealthy evs → EndsHealthy (ev ∷ evs)
    there e = record {
      before = ev ∷ e.before;
      last = e.last;
      behind = e.behind;
      split = ap (λ (vs : List StreamEvent). ev ∷ vs) e.split;
      running = (r, e.running);
      healthy = e.healthy;
    }

    back :
        (before : List StreamEvent) (last : StreamEvent) (behind : List StreamEvent)
        → ev ∷ evs ≡ before ++ last ∷ behind
        → All (λ v. is_terminal v.state ≡ false) before
        → last.state ≡ lit "healthy"
        → EndsHealthy evs
    back [] last behind split running healthy =
        let same : last ≡ ev = cc in
        cc (
          healthy-is_terminal ev.state
            (subst (λ (v : StreamEvent). v.state ≡ lit "healthy") same healthy))
    back (v ∷ vs) last behind split running healthy = record {
      before = vs;
      last = last;
      behind = behind;
      split = cc;
      running = running.1;
      healthy = healthy;
    }

exit_of-EndsHealthy : (evs : List StreamEvent) → (exit_of evs ≡ 0) ↔ EndsHealthy evs
exit_of-EndsHealthy [] =
    (λ h. absurd (omega arith), λ e. absurd (no_events e.before e.behind e.last e.split))
exit_of-EndsHealthy (ev ∷ evs) =
    let rest = exit_of-EndsHealthy evs in
    elim (Bool-cases (is_terminal ev.state)) [
      | inl terminal ↦ rw terminal (ends_now ev evs terminal)
      | inr running ↦
          let later = ends_later ev evs running in
          rw running (λ h. later.0 (rest.0 h), λ e. rest.1 (later.1 e))
    ]

-- The exit code of a followed command is 0 if and only if the run's own events on the stream, up to a
-- line that is too long, come to an end of the run, and the first of them that ends it says that the service is healthy; whatever
-- else is on the stream, and however many lines it has.
pub follow-EndsHealthy :
    (decode : Text → Option StreamEvent) (journal_id : ℕ) (lines : List Text)
    → (follow decode journal_id lines ≡ 0) ↔ EndsHealthy (own_events decode journal_id lines)
unfolding follow
follow-EndsHealthy decode journal_id lines =
    let iff = exit_of-EndsHealthy (own_events decode journal_id lines) in
    let same = follow_from-exit_of decode journal_id (suc (length lines)) lines (omega arith) in
    (λ h. iff.0 (sym same ∙ h), λ e. same ∙ iff.1 e)
