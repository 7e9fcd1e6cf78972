-- ===== src/Gitops/GitHub/Scope.antt =====
-- What OpenManifestPR may do to the repository (internal/gitops/github.go).
use snowdeploy.Base.{
  ℕ, Text, lit, ◌≡◌, ◌≢◌, refl, ◌⊎◌, inl, inr, map, any, In, Bool, true, false, List, [], ◌∷◌, ◌++◌,
  Option, none, some, Error, Result, ok, err, Bool-cases,
}
use snowdeploy.Occurs.{Occurs, contains-Occurs}
use snowdeploy.Script.{Contract}
use snowdeploy.Gitops.Names.Plain.{IsPlain}
use snowdeploy.Gitops.GitHub.{
  Kind, accepted, other, response, ApiError, Opened, opened, unopened, Query, Reply, github,
  GitHubAppConfig, manifest_path,
}
use snowdeploy.Gitops.GitHub.Refusals.{
  is_unprocessable, is_unprocessable-422, says, is_already_exists,
}
use snowdeploy.Gitops.GitHub.Propose.{branch_for}

module _ (lower : ℕ → ℕ) where
  -- A 422 that says "already exists", in its message or in one of its errors.
  abbrev pub IsDuplicate : Kind → Type 0
  IsDuplicate accepted = ⊥
  IsDuplicate other = ⊥
  IsDuplicate (response status message errors) =
      (status ≡ some 422)
      × ((m : Text) × In m (message ∷ errors) × Occurs (lit "already exists") (map lower m))

  any-says :
      (ms : List Text) (p : Text)
      → any (λ m. says lower p m) ms ≡ true
      → (m : Text) × In m ms × Occurs p (map lower m)
  any-says [] p h = cc
  any-says (m ∷ ms) p h = elim (Bool-cases (says lower p m)) [
    | inl here ↦ (m, inl refl, contains-Occurs (map lower m) p here)
    | inr later ↦ let (n, i, o) = any-says ms p (rw later at h) in (n, inr i, o)
  ]

  pub is_already_exists-IsDuplicate : (k : Kind) → is_already_exists lower k ≡ true → IsDuplicate k
  unfolding is_already_exists
  is_already_exists-IsDuplicate accepted h = cc
  is_already_exists-IsDuplicate other h = cc
  is_already_exists-IsDuplicate (response status message errors) h =
      elim (Bool-cases (is_unprocessable status)) [
        | inl unprocessable ↦ (
          is_unprocessable-422 status unprocessable,
          any-says (message ∷ errors) (lit "already exists") (rw unprocessable at h),
        )
        | inr differs ↦ cc (rw differs at h)
      ]

-- What was answered so far.
pub record Progress : Type 0 where
  pub base : Option Text
  pub branch : Option (Option ApiError)
  pub wrote : Bool
  pub opens : Option Opened
  pub listed : Option ℕ

abbrev pub untouched : Progress
untouched = record { base = none; branch = none; wrote = false; opens = none; listed = none }

abbrev pub listed_first : Result (List ℕ) → Option ℕ
listed_first (ok (n ∷ ns)) = some n
listed_first _ = none

abbrev pub is_written : Option Error → Bool
is_written none = true
is_written (some e) = false

abbrev pub ok_value : Result Text → Option Text
ok_value (ok t) = some t
ok_value (err e) = none

abbrev pub remembers : Progress → (q : Query) → Reply q → Progress
remembers w (Query.get_ref ref) r = record w { base = ok_value r }
remembers w (Query.create_ref ref sha) r = record w { branch = some r }
remembers w (Query.create_file p m c b sha) r = record w { wrote = is_written r }
remembers w (Query.create_pr t h b body) r = record w { opens = some r }
remembers w (Query.list_prs h b) r = record w { listed = listed_first r }
remembers w q r = w

-- The branch is there: it was created, or refused as a duplicate.
abbrev pub IsThere : (ℕ → ℕ) → Option (Option ApiError) → Type 0
IsThere lower none = ⊥
IsThere lower (some none) = Unit
IsThere lower (some (some e)) = IsDuplicate lower e.kind

-- The proposal was refused as a duplicate.
abbrev pub IsTaken : (ℕ → ℕ) → Option Opened → Type 0
IsTaken lower none = ⊥
IsTaken lower (some (opened n)) = ⊥
IsTaken lower (some (unopened e)) = IsDuplicate lower e.kind

module _ (sha256_hex : Text → Text) (lower : ℕ → ℕ) (a : GitHubAppConfig)
    (service content : Text) where
  abbrev own_branch : Text
  own_branch = branch_for sha256_hex service content

  -- The queries that proposing the content as the service's manifest takes: one branch, cut from the
  -- base, one file on it, and one proposal of it to the base.
  abbrev pub InScope : Progress → Query → Type 0
  InScope w (Query.read_key path) = path ≡ a.key_path
  InScope w (Query.new_transport key) = Unit
  InScope w Query.new_client = Unit
  InScope w (Query.get_ref ref) = ref ≡ lit "heads/" ++ a.base_branch
  InScope w (Query.create_ref ref sha) =
      (ref ≡ lit "refs/heads/" ++ own_branch) × (w.base ≡ some sha)
  InScope w (Query.get_contents path branch) =
      (path ≡ manifest_path a service) × (branch ≡ own_branch)
  InScope w (Query.create_file path message c branch sha) =
      (path ≡ manifest_path a service)
      × (c ≡ content)
      × (branch ≡ own_branch)
      × IsPlain service
      × IsThere lower w.branch
  InScope w (Query.create_pr title head base body) =
      (head ≡ own_branch) × (base ≡ a.base_branch) × (w.wrote ≡ true)
  InScope w (Query.list_prs head base) =
      (head ≡ a.owner ++ lit ":" ++ own_branch) × (base ≡ a.base_branch) × IsTaken lower w.opens
  InScope w q = ⊥

  abbrev pub scope : Contract github
  scope = record { Watch = Progress; Allowed = InScope; after = remembers }

-- A number is that of the proposal opened now, or of an open one of the same branch; an error means
-- that none was opened.
abbrev pub IsProposed : (ℕ → ℕ) → Result ℕ → Progress → Type 0
IsProposed lower (ok n) w =
    (w.wrote ≡ true)
    × ((w.opens ≡ some (opened n)) ⊎ (IsTaken lower w.opens × (w.listed ≡ some n) × (n ≢ 0)))
IsProposed lower (err e) w = (n : ℕ) → w.opens ≢ some (opened n)
