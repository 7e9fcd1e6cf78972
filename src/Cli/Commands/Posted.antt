-- ===== src/Cli/Commands/Posted.antt =====
-- What each call of a followed command puts on the wire (cmd/snowdeploy/client.go), and the exit code
-- behind the start.
use mathlib.Core.Path.{subst}
use snowdeploy.Base.{
  ℕ, Text, lit, ◌≡◌, refl, is_empty, ◌⊎◌, inl, inr, true, false, List, Option, none, some, Error,
  Result, ok, err, Bool-cases, arith,
}
use snowdeploy.Script.{ret, Contract, Keeps, Keeps-then}
use snowdeploy.Cli.Client.{
  http, Response, Client, Codec, authorize, request_built, new_request, is_success, answered, sent,
  perform, decode_answer, decode_body, start_path, digest_body, start_deploy,
}
use snowdeploy.Cli.Follow.{StreamEvent}
use snowdeploy.Cli.Follow.Verdict.{own_events, EndsHealthy, follow-EndsHealthy}
use snowdeploy.Cli.Commands.{started, subscribed}
use snowdeploy.Cli.Commands.Wire.{Wire, fresh, watching, posted, MayCarry, following, ExitsBy}

pub one_zero : ◌≡◌ {A = ℕ} 1 0 → ⊥
one_zero h = omega arith

module _ (x : Codec) (c : Client) where
  module _ (decode_event : Text → Option StreamEvent) where
    abbrev Exits : ℕ → Wire → Type 0
    Exits = ExitsBy x decode_event

    -- The exit code behind an accepted answer.
    accepted-Exits :
        (lines : List Text) (path : Text) (r : Response) (d : Result ℕ)
        → is_success r.code ≡ true
        → x.decode_started r.body ≡ d
        → Exits (started decode_event lines (decode_answer path d)) (posted lines (ok r))
    accepted-Exits lines path r (err e) success numbered =
        (λ h. absurd (one_zero h), λ s. absurd (no_id s.response s.journal_id s.replied s.numbered))
      where
        no_id :
            (other : Response) (id : ℕ) → ok r ≡ ok other → x.decode_started other.body ≡ ok id → ⊥
        no_id other id same n = cc
    accepted-Exits lines path r (ok id) success numbered =
        let iff = follow-EndsHealthy decode_event id lines in
        (
          λ h. record {
            response = r;
            journal_id = id;
            replied = refl;
            accepted = success;
            numbered = numbered;
            ends_healthy = iff.0 h;
          },
          λ s. iff.1 (same_id s.response s.journal_id s.replied s.numbered s.ends_healthy),
        )
      where
        same_id :
            (other : Response) (n : ℕ)
            → ok r ≡ ok other
            → x.decode_started other.body ≡ ok n
            → EndsHealthy (own_events decode_event n lines)
            → EndsHealthy (own_events decode_event id lines)
        same_id other n same numbered' ends =
            let equal : n ≡ id = cc in
            subst (λ (k : ℕ). EndsHealthy (own_events decode_event k lines)) equal ends

    -- A reply that is not accepted.
    posted-Exits :
        (lines : List Text) (path : Text) (r : Result Response)
        → Exits
            (started decode_event lines
              (decode_body x.decode_started path (answered c x.decode_error (lit "POST") path r)))
            (posted lines r)
    posted-Exits lines path (err e) =
        (λ h. absurd (one_zero h), λ s. absurd (unanswered s.response s.replied))
      where
        unanswered : (r : Response) → ◌≡◌ {A = Result Response} (err e) (ok r) → ⊥
        unanswered r h = cc
    posted-Exits lines path (ok r) = elim (Bool-cases (is_success r.code)) [
      | inl success ↦
          rw success (accepted-Exits lines path r (x.decode_started r.body) success refl)
      | inr refused ↦
          rw refused
            (λ h. absurd (one_zero h), λ s. absurd (other s.response s.replied s.accepted refused))
    ]
      where
        other :
            (s : Response)
            → ◌≡◌ {A = Result Response} (ok r) (ok s)
            → is_success s.code ≡ true
            → is_success r.code ≡ false
            → ⊥
        other s same success refused = cc

module _ (x : Codec) (c : Client) (action service digest : Text) where
  abbrev C : Contract http
  C = following x c action service digest

  authorize-quiet : (w : Wire) → Keeps C (authorize c) (λ _ v. v ≡ w) w
  unfolding authorize
  authorize-quiet w = elim (Bool-cases (is_empty c.token_file)) [
    | inl e ↦ rw e refl
    | inr e ↦ rw e (refl, λ r. refl)
  ]

  pub new_request-quiet :
      (method path : Text) (w : Wire) → Keeps C (new_request c method path) (λ _ v. v ≡ w) w
  unfolding new_request
  new_request-quiet method path w = (tt, of_built)
    where
      of_built : (e : Option Error) → Keeps C (request_built c e) (λ _ v. v ≡ w) w
      of_built (some e) = refl
      of_built none = authorize-quiet w

  -- The body that was read, by what went over the wire.
  abbrev pub Reads : Text → Result Text → Wire → Type 0
  Reads path body v =
      ((v ≡ fresh none) × (e : Error) × (body ≡ err e))
      ⊎ ((r : Result Response) × (v ≡ fresh (some r))
          × (body ≡ answered c x.decode_error (lit "GET") path r))

  pub perform-Reads :
      Keeps C
        (perform c x.decode_error (lit "GET") (lit "/api/v1/services") none)
        (Reads (lit "/api/v1/services"))
        (fresh none)
  unfolding perform
  perform-Reads =
      Keeps-then C (new_request c (lit "GET") (lit "/api/v1/services"))
        (sent c x.decode_error (lit "GET") (lit "/api/v1/services") none) (λ _ v. v ≡ fresh none)
        (Reads (lit "/api/v1/services")) (fresh none)
        (new_request-quiet (lit "GET") (lit "/api/v1/services") (fresh none)) of_token
    where
      of_token :
          (t : Result (Option Text)) (v : Wire)
          → v ≡ fresh none
          → Keeps C
              (sent c x.decode_error (lit "GET") (lit "/api/v1/services") none t)
              (Reads (lit "/api/v1/services"))
              v
      of_token (err e) v h = inl (h, e, refl)
      of_token (ok t) v h = rw h ((refl, refl, refl), λ r. inr (r, refl, refl))

  -- The result of the start, by what went over the wire.
  abbrev AnswersPost : List Text → Text → Result Text → Wire → Type 0
  AnswersPost lines path res (fresh k) = ⊥
  AnswersPost lines path res (watching k seen) = (e : Error) × (res ≡ err e)
  AnswersPost lines path res (posted seen r) =
      (seen ≡ lines) × (res ≡ answered c x.decode_error (lit "POST") path r)

  perform-posts :
      (k : Option (Result Response)) (lines : List Text) (body : Option Text)
      → MayCarry x c action service digest k body
      → Keeps C
          (perform c x.decode_error (lit "POST") (start_path x c action service) body)
          (AnswersPost lines (start_path x c action service))
          (watching k lines)
  unfolding perform
  perform-posts k lines body may =
      let path = start_path x c action service in
      Keeps-then C (new_request c (lit "POST") path) (sent c x.decode_error (lit "POST") path body)
        (λ _ v. v ≡ watching k lines) (AnswersPost lines path) (watching k lines)
        (new_request-quiet (lit "POST") path (watching k lines)) of_token
    where
      of_token :
          (t : Result (Option Text)) (v : Wire)
          → v ≡ watching k lines
          → Keeps C
              (sent c x.decode_error (lit "POST") (start_path x c action service) body t)
              (AnswersPost lines (start_path x c action service))
              v
      of_token (err e) v h = rw h (e, refl)
      of_token (ok t) v h = rw h ((refl, refl, may), λ r. (refl, refl))

  module _ (decode_event : Text → Option StreamEvent) where
    pub start-Exits :
        (k : Option (Result Response)) (lines : List Text) (target : Text)
        → MayCarry x c action service digest k (digest_body x c action target)
        → Keeps C
            (subscribed x c decode_event action service target (ok lines))
            (Exits x c decode_event)
            (watching k lines)
    unfolding start_deploy
    start-Exits k lines target may =
        let path = start_path x c action service in
        Keeps-then C (start_deploy x c action service target)
          (λ id. ret (started decode_event lines id)) Numbered (Exits x c decode_event)
          (watching k lines)
          (Keeps-then C (perform c x.decode_error (lit "POST") path (digest_body x c action target))
            (λ body. ret (decode_body x.decode_started path body)) (AnswersPost lines path) Numbered
            (watching k lines) (perform-posts k lines (digest_body x c action target) may) numbered)
          exits
      where
        Numbered : Result ℕ → Wire → Type 0
        Numbered id v = Exits x c decode_event (started decode_event lines id) v

        exits :
            (id : Result ℕ) (v : Wire)
            → Exits x c decode_event (started decode_event lines id) v
            → Exits x c decode_event (started decode_event lines id) v
        exits id v h = h

        numbered :
            (body : Result Text) (v : Wire)
            → AnswersPost lines (start_path x c action service) body v
            → Exits x c decode_event
                (started decode_event lines
                  (decode_body x.decode_started (start_path x c action service) body))
                v
        numbered body (fresh k) h = absurd h
        numbered body (watching k seen) h = rw h.1 (λ z. absurd (one_zero z), λ s. absurd s)
        numbered body (posted seen r) h =
            rw (h.0, h.1) (posted-Exits x c decode_event lines (start_path x c action service) r)
