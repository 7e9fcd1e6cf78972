-- ===== src/Deploy/Keeps/Start.antt =====
-- The critical section of `start` (internal/deploy/engine.go), keeps to its protocol.
use snowdeploy.Base.{
  ℕ, Text, ◌≡◌, refl, sym, ap, ◌∙◌, ◌==◌, ==→eq, not, ◌&&◌, if◌then◌else◌, Bool, true, false,
  Option, none, some, ok, err,
}
use snowdeploy.Manifest.Defs.{Manifest}
use snowdeploy.Manifest.Validate.{is_digest}
use snowdeploy.Journal.Defs.{Action, is_converge}
use mathlib.Core.Path.{subst}
use snowdeploy.Effect.{PendingRun}
use snowdeploy.Effect.Logic.{Protocol, Wp, Wp-if}
use snowdeploy.Deploy.Start.{
  Click, joins, request, first_entry, register, start_begun, start_new, start_joined, start_pending,
  start_registered, Started,
}
use snowdeploy.Deploy.Keeps.Desk.{Desk, start_protocol, idle, Answered, IsContent}

both_true : (a b : Bool) → (a && b) ≡ true → (a ≡ true) × (b ≡ true)
both_true true b h = (refl, h)
both_true false b h = cc

joins-alike :
    (action : Action) (digest : Text) (p : PendingRun)
    → joins action digest p ≡ true
    → (is_converge p.action ≡ is_converge action) × (p.digest ≡ digest)
joins-alike action digest p h =
    let (kind, same) = both_true _ (p.digest == digest) h in
    (alike (is_converge p.action) (is_converge action) kind, ==→eq p.digest digest same)
  where
    alike : (a b : Bool) → (if a then b else not b) ≡ true → a ≡ b
    alike true true k = refl
    alike false false k = refl
    alike true false k = cc
    alike false true k = cc

module _ (c : Click) (m : Manifest) (pin : is_digest c.digest ≡ true)
    (wants : Text → Option Text → Text → Type 0) (pinned : c.old_digest ≡ m.image.digest)
    (content : IsContent c.action c.raw m.image.digest c.digest c.content) where
  abbrev pub P : Protocol
  P = start_protocol c.action c.service c.actor

  abbrev pub Goal : Started → Desk → Type 0
  Goal = Answered c.action c.service c.actor wants

  launched-Goal :
      (id at : ℕ) (g : Desk)
      → g.mu_held ≡ false
      → g.begun ≡ some (first_entry c at, id)
      → g.read ≡ some (m, c.raw)
      → g.launched ≡ some (request c id)
      → wants m.image.digest g.previous c.digest
      → Goal (ok (id, false)) g
  launched-Goal id at g free begun read launched wanted = (
    free,
    (
      first_entry c at,
      request c id,
      m,
      c.raw,
      begun,
      launched,
      read,
      refl,
      refl,
      refl,
      pinned,
      wanted,
      pin,
      refl,
      refl,
      refl,
      pinned,
      refl,
      refl,
      content,
    ),
  )

  start_begun-Wp :
      (p : Option PendingRun) (id at : ℕ) (g : Desk)
      → g.mu_held ≡ true
      → g.seen ≡ p
      → g.read ≡ some (m, c.raw)
      → g.begun ≡ some (first_entry c at, id)
      → g.launched ≡ none
      → wants m.image.digest g.previous c.digest
      → Wp P (start_begun c p (ok id)) Goal g
  unfolding start_begun register
  start_begun-Wp none id at g held seen read begun still wanted = (
    (held, seen, refl, refl, (first_entry c at, begun, refl)),
    λ _. (
      held,
      λ _. (
        refl,
        λ _. (
          (refl, still, refl, refl, (first_entry c at, begun, refl)),
          λ _.
              launched-Goal id at
                (record g {
                  mu_held = false;
                  registered = some (record { action = c.action; digest = c.digest; id = id });
                  launched = some (request c id);
                })
                refl begun read refl wanted,
        ),
      ),
    ),
  )
  start_begun-Wp (some p) id at g held seen read begun still wanted = (
    held,
    λ _. (
      refl,
      λ _. (
        (refl, still, refl, refl, (first_entry c at, begun, refl)),
        λ _.
            launched-Goal id at (record g { mu_held = false; launched = some (request c id) }) refl
              begun read refl wanted,
      ),
    ),
  )

  start_new-Wp :
      (p : Option PendingRun) (g : Desk)
      → g.mu_held ≡ true
      → g.seen ≡ p
      → g.read ≡ some (m, c.raw)
      → g.begun ≡ none
      → g.registered ≡ none
      → g.launched ≡ none
      → wants m.image.digest g.previous c.digest
      → Wp P (start_new c p) Goal g
  unfolding start_new start_begun
  start_new-Wp p g held seen read fresh unreg still wanted = (
    tt,
    λ at. (
      (held, fresh, refl, refl, refl),
      elim [
        | err e ↦ (held, λ _. (refl, still, unreg))
        | ok id ↦ start_begun-Wp p id at _ held seen read refl still wanted
      ],
    ),
  )

  start_pending-Wp :
      (p : Option PendingRun) (g : Desk)
      → g.mu_held ≡ true
      → g.seen ≡ p
      → g.read ≡ some (m, c.raw)
      → g.begun ≡ none
      → g.registered ≡ none
      → g.launched ≡ none
      → wants m.image.digest g.previous c.digest
      → Wp P (start_pending c p) Goal g
  unfolding start_pending start_joined
  start_pending-Wp none g held seen read fresh unreg still wanted =
      start_new-Wp none g held seen read fresh unreg still wanted
  start_pending-Wp (some p) g held seen read fresh unreg still wanted =
      Wp-if P (joins c.action c.digest p) _ _ Goal g
        (λ same.
          let (kind, digest) = joins-alike c.action c.digest p same in
          (
            held,
            λ _. (
              refl,
              still,
              fresh,
              unreg,
              (
                p,
                m,
                c.raw,
                seen,
                read,
                refl,
                kind,
                subst (wants m.image.digest g.previous) (sym digest) wanted,
                ap is_digest digest ∙ pin,
              ),
            ),
          ))
        (λ differ. start_new-Wp (some p) g held seen read fresh unreg still wanted)

  pub start_registered-Wp :
      (previous : Option Text)
      → wants m.image.digest previous c.digest
      → Wp P (start_registered c) Goal (record idle { read = some (m, c.raw); previous = previous })
  unfolding start_registered
  start_registered-Wp previous wanted =
      (refl, λ _. ((refl, refl), λ p. start_pending-Wp p _ refl refl refl refl refl refl wanted))
