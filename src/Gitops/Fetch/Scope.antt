-- ===== src/Gitops/Fetch/Scope.antt =====
-- What a fetch may do, and what it leaves of the mirror (internal/gitops/repo.go).
use snowdeploy.Base.{
  Text, lit, ◌≡◌, refl, ◌∙◌, inl, inr, has_prefix, Bool, true, false, not, ◌||◌, Option, none, some,
  Error, Sentinel, errors_is, Result, ok, err, Bool-cases, if◌then◌else◌,
}
use snowdeploy.Script.{ret, ◌>>=◌, query, Contract, Keeps, Keeps-then}
use snowdeploy.Gitops.Mirror.{RepoConfig}
use snowdeploy.Gitops.Fetch.{
  Query, token_fn, plain_open, clone, fetch, reference, worktree, reset, clean, Reply, git,
  password_of, auth, clone_with, opened_or, open_or_clone, cleaned, reset_done, worktree_opened,
  resolved, fetched, fetch_with, opened, fetch_and_reset,
}

-- The newest token, whether the last fetch succeeded or had nothing to do, the commit of the remote
-- branch, the commit of the working tree, and whether nothing but that commit is in it.
pub record Seen : Type 0 where
  pub token : Option Text
  pub is_current : Bool
  pub remote : Option Text
  pub tree : Option Text
  pub is_clean : Bool

abbrev pub unseen : Seen
unseen = record { token = none; is_current = false; remote = none; tree = none; is_clean = false }

abbrev value : Result Text → Option Text
value (ok t) = some t
value (err e) = none

abbrev when_done : {A : Type 0} → Option Error → A → A → A
when_done none new old = new
when_done (some e) new old = old

-- The reply of a fetch that leaves the remote branches current.
abbrev pub is_current_after : Option Error → Bool
is_current_after none = true
is_current_after (some e) = errors_is e Sentinel.already_up_to_date

abbrev pub sees : Seen → (q : Query) → Reply q → Seen
sees w token_fn r = record w { token = value r }
sees w (fetch password branch) r = record w { is_current = is_current_after r; remote = none }
sees w (reference branch) r = record w { remote = value r }
sees w (reset commit) r = record w { tree = when_done r (some commit) none; is_clean = false }
sees w clean r = record w { is_clean = when_done r true false }
sees w q r = w

module _ (cfg : RepoConfig) where
  -- A password is the newest token, for a URL that starts with http.
  abbrev pub MayCarry : Seen → Option Text → Type 0
  MayCarry w none = Unit
  MayCarry w (some password) = (w.token ≡ some password) × (has_prefix cfg.url (lit "http") ≡ true)

  abbrev pub MayAsk : Seen → Query → Type 0
  MayAsk w token_fn = (cfg.token_fn ≡ true) × (has_prefix cfg.url (lit "http") ≡ true)
  MayAsk w (plain_open dir) = dir ≡ cfg.cache_dir
  MayAsk w (clone dir url password branch) =
      (dir ≡ cfg.cache_dir) × (url ≡ cfg.url) × (branch ≡ cfg.branch) × MayCarry w password
  MayAsk w (fetch password branch) = (branch ≡ cfg.branch) × MayCarry w password
  MayAsk w (reference branch) = (branch ≡ cfg.branch) × (w.is_current ≡ true)
  MayAsk w worktree = Unit
  MayAsk w (reset commit) = (w.remote ≡ some commit) × (w.is_current ≡ true)
  MayAsk w clean = (commit : Text) × (w.tree ≡ some commit)

  abbrev pub scope : Contract git
  scope = record { Watch = Seen; Allowed = MayAsk; after = sees }

  -- A commit is that of the remote branch, and the working tree holds it and nothing else.
  abbrev pub IsMirrored : Result Text → Seen → Type 0
  IsMirrored (ok commit) w =
      (w.is_current ≡ true)
      × (w.remote ≡ some commit)
      × (w.tree ≡ some commit)
      × (w.is_clean ≡ true)
  IsMirrored (err e) w = Unit

  abbrev Carries : Result (Option Text) → Seen → Type 0
  Carries (ok password) w = MayCarry w password
  Carries (err e) w = Unit

  auth-Keeps : (w : Seen) → Keeps scope (auth cfg) Carries w
  unfolding auth
  auth-Keeps w = guarded cfg.token_fn (has_prefix cfg.url (lit "http")) (λ h. h) (λ h. h)
    where
      of_token :
          has_prefix cfg.url (lit "http") ≡ true
          → (r : Result Text) → Carries (password_of cfg r) (record w { token = value r })
      of_token h (ok t) = (refl, h)
      of_token h (err e) = tt

      guarded :
          (given http : Bool)
          → (given ≡ true → cfg.token_fn ≡ true)
          → (http ≡ true → has_prefix cfg.url (lit "http") ≡ true)
          → Keeps scope
              (if not given || not http
                then ret (ok none)
                else (do token ← query token_fn; ret (password_of cfg token)))
              Carries
              w
      guarded false http g h = tt
      guarded true false g h = tt
      guarded true true g h = ((g refl, h refl), λ r. of_token (h refl) r)

  open_or_clone-Keeps : (w : Seen) → Keeps scope (open_or_clone cfg) (λ e v. Unit) w
  unfolding open_or_clone
  open_or_clone-Keeps w = (refl, λ e. of_open e)
    where
      of_clone :
          (r : Result (Option Text)) (v : Seen)
          → Carries r v
          → Keeps scope (clone_with cfg r) (λ e u. Unit) v
      of_clone (err e) v c = tt
      of_clone (ok password) v c = ((refl, refl, refl, c), λ e. tt)

      of_open : (e : Option Error) → Keeps scope (opened_or cfg e) (λ f u. Unit) w
      of_open none = tt
      of_open (some e) = elim (Bool-cases (errors_is e Sentinel.repository_not_exists)) [
        | inl missing ↦ rw missing (
            Keeps-then scope (auth cfg) (clone_with cfg) Carries (λ e u. Unit) w (auth-Keeps w)
              (λ r v c. of_clone r v c))
        | inr broken ↦ rw broken tt
      ]

  cleaned-IsMirrored :
      (commit : Text) (e : Option Error) (w : Seen)
      → w.is_current ≡ true
      → w.remote ≡ some commit
      → w.tree ≡ some commit
      → IsMirrored (cleaned cfg commit e) (record w { is_clean = when_done e true false })
  cleaned-IsMirrored commit none w c r t = (c, r, t, refl)
  cleaned-IsMirrored commit (some e) w c r t = tt

  reset_done-Keeps :
      (commit : Text) (e : Option Error) (w : Seen)
      → w.is_current ≡ true
      → w.remote ≡ some commit
      → Keeps scope
          (reset_done cfg commit e)
          IsMirrored
          (record w { tree = when_done e (some commit) none; is_clean = false })
  reset_done-Keeps commit none w c r = (
    (commit, refl),
    λ e. cleaned-IsMirrored commit e (record w { tree = some commit; is_clean = false }) c r refl,
  )
  reset_done-Keeps commit (some e) w c r = tt

  resolved-Keeps :
      (r : Result Text) (w : Seen)
      → w.is_current ≡ true
      → Keeps scope (resolved cfg r) IsMirrored (record w { remote = value r })
  resolved-Keeps (err e) w c = tt
  resolved-Keeps (ok commit) w c = (tt, λ e. of_worktree e)
    where
      of_worktree :
          (e : Option Error)
          → Keeps scope
              (worktree_opened cfg commit e)
              IsMirrored
              (record w { remote = some commit })
      of_worktree (some e) = tt
      of_worktree none =
          ((refl, c), λ e. reset_done-Keeps commit e (record w { remote = some commit }) c refl)

  fetched-Keeps :
      (e : Option Error) (w : Seen)
      → w.is_current ≡ is_current_after e
      → Keeps scope (fetched cfg e) IsMirrored w
  fetched-Keeps none w c = ((refl, c), λ r. resolved-Keeps r (record w { remote = value r }) c)
  fetched-Keeps (some e) w c = elim (Bool-cases (errors_is e Sentinel.already_up_to_date)) [
    | inl current ↦
        rw current
          ((refl, c ∙ current), λ r. resolved-Keeps r (record w { remote = value r }) (c ∙ current))
    | inr broken ↦ rw broken tt
  ]

  fetch_with-Keeps :
      (r : Result (Option Text)) (w : Seen)
      → Carries r w
      → Keeps scope (fetch_with cfg r) IsMirrored w
  fetch_with-Keeps (err e) w c = tt
  fetch_with-Keeps (ok password) w c = (
    (refl, c),
    λ e. fetched-Keeps e (record w { is_current = is_current_after e; remote = none }) refl,
  )

  -- Whatever git and the token function answer: a token is asked for, and handed to git, only where
  -- one is configured and the URL starts with http (plain http included), and then it is the newest
  -- one; the remote branch is read only behind a fetch that succeeded or had nothing to do; the working
  -- tree is reset only to the commit that the branch was then read to be at; and a commit is answered only if the working tree was reset to it and cleaned.
  pub fetch_and_reset-Keeps : Keeps scope (fetch_and_reset cfg) IsMirrored unseen
  unfolding fetch_and_reset
  fetch_and_reset-Keeps =
      Keeps-then scope (open_or_clone cfg) (opened cfg) (λ e v. Unit) IsMirrored unseen
        (open_or_clone-Keeps unseen) (λ e v u. of_open e v)
    where
      of_open : (e : Option Error) (v : Seen) → Keeps scope (opened cfg e) IsMirrored v
      of_open (some e) v = tt
      of_open none v =
          Keeps-then scope (auth cfg) (fetch_with cfg) Carries IsMirrored v (auth-Keeps v)
            (λ r u c. fetch_with-Keeps r u c)
