-- ===== src/Config/Loaded.antt =====
-- What Load answers (internal/config/config.go).
use snowdeploy.Base.{
  Text, lit, ◌≡◌, refl, ◌⊎◌, inl, inr, is_empty, trim_space, true, false, List, Option, none, some,
  Error, Result, ok, err, Bool-cases,
}
use snowdeploy.Base.Int.{ℤ, pos, ltb_ℤ}
use snowdeploy.Config.{
  Config, set_string, set_duration, apply_defaults, validate, checked, decoded, read, load,
}
use snowdeploy.Config.Safe.{IsGiven, IsSafe, Visits, validate-IsSafe}
use snowdeploy.Config.Checks.{is_empty-false}

-- Behind the defaults no address, branch or directory is blank, and no interval is negative or zero.
pub record IsDefaulted (c : Config) : Type 0 where
  pub listen : IsGiven c.listen
  pub metrics_listen : IsGiven c.metrics_listen
  pub repo_branch : IsGiven c.repo_branch
  pub manifest_dir : IsGiven c.manifest_dir
  pub template_dir : IsGiven c.template_dir
  pub poll_interval : ltb_ℤ (pos 0) c.poll_interval ≡ true
  pub drift_interval : ltb_ℤ (pos 0) c.drift_interval ≡ true
  pub check_poll_interval : ltb_ℤ (pos 0) c.check_poll_interval ≡ true
  pub probe_interval : ltb_ℤ (pos 0) c.probe_interval ≡ true

set_string-IsGiven :
    (field fallback : Text) → IsGiven fallback → IsGiven (set_string field fallback)
unfolding set_string
set_string-IsGiven field fallback given = elim (Bool-cases (is_empty (trim_space field))) [
  | inl blank ↦ rw blank given
  | inr full ↦ rw full ((is_empty-false (trim_space field)).0 full)
]

set_duration-positive :
    (field fallback : ℤ)
    → ltb_ℤ (pos 0) fallback ≡ true
    → ltb_ℤ (pos 0) (set_duration field fallback) ≡ true
unfolding set_duration
set_duration-positive field fallback h = elim (Bool-cases (ltb_ℤ (pos 0) field)) [
  | inl positive ↦ rw positive positive
  | inr other ↦ rw other h
]

default-IsGiven :
    (field fallback : Text)
    → is_empty (trim_space fallback) ≡ false
    → IsGiven (set_string field fallback)
default-IsGiven field fallback h =
    set_string-IsGiven field fallback ((is_empty-false (trim_space fallback)).0 h)

apply_defaults-IsDefaulted : (c : Config) → IsDefaulted (apply_defaults c)
unfolding apply_defaults
apply_defaults-IsDefaulted c = record {
  listen = default-IsGiven c.listen (lit "127.0.0.1:8092") (unfold lit trim_space in refl);
  metrics_listen =
      default-IsGiven c.metrics_listen (lit "127.0.0.1:9105") (unfold lit trim_space in refl);
  repo_branch = default-IsGiven c.repo_branch (lit "main") (unfold lit trim_space in refl);
  manifest_dir =
      default-IsGiven c.manifest_dir (lit "deploy/manifests") (unfold lit trim_space in refl);
  template_dir =
      default-IsGiven c.template_dir (lit "deploy/templates") (unfold lit trim_space in refl);
  poll_interval = set_duration-positive c.poll_interval (pos 300000000000) refl;
  drift_interval = set_duration-positive c.drift_interval (pos 300000000000) refl;
  check_poll_interval = set_duration-positive c.check_poll_interval (pos 15000000000) refl;
  probe_interval = set_duration-positive c.probe_interval (pos 2000000000) refl;
}

-- What Load answers, of what the file and the decoder answer.
abbrev pub IsLoaded : (Text → Result Text) → (Text → Result Config) → Text → Result Config → Type 0
IsLoaded read_file decode path (ok c) =
    (raw : Text) × (d : Config) × (read_file path ≡ ok raw)
    × (decode raw ≡ ok d)
    × (c ≡ apply_defaults d)
    × IsSafe c
    × IsDefaulted c
IsLoaded read_file decode path (err e) =
    ((f : Error) × (read_file path ≡ err f))
    ⊎ ((raw : Text) × (f : Error) × (read_file path ≡ ok raw) × (decode raw ≡ err f))
    ⊎ ((raw : Text) × (d : Config) × (read_file path ≡ ok raw)
        × (decode raw ≡ ok d)
        × ¬ (IsSafe (apply_defaults d)))

module _ (quote : Text → Text) (walk : List (Text × Text) → List (Text × Text))
    (visits : Visits walk) (read_file : Text → Result Text) (decode : Text → Result Config)
    (path : Text) where
  -- Load accepts a file if and only if it can be read and decoded and what it says, with the
  -- defaults for what is blank, is safe: it listens on loopback only, on two addresses, names its
  -- repository, key and ids, has a proxy secret exactly with its users, and absolute paths. What is
  -- accepted is safe and has no blank default and no interval that is not positive.
  pub load-IsLoaded : IsLoaded read_file decode path (load quote walk read_file decode path)
  unfolding load
  load-IsLoaded = of_file (read_file path) refl
    where
      of_checks :
          (raw : Text) (d : Config) (o : Option Error)
          → read_file path ≡ ok raw
          → decode raw ≡ ok d
          → validate quote walk (apply_defaults d) ≡ o
          → IsLoaded read_file decode path (checked quote walk path (apply_defaults d) o)
      of_checks raw d none h k v = (
        raw,
        d,
        h,
        k,
        refl,
        (validate-IsSafe quote walk visits (apply_defaults d)).0 v,
        apply_defaults-IsDefaulted d,
      )
      of_checks raw d (some e) h k v = inr (
          inr (
            raw,
            d,
            h,
            k,
            λ s. refused v ((validate-IsSafe quote walk visits (apply_defaults d)).1 s),
          ))
        where
          refused : {o : Option Error} → o ≡ some e → o ≡ none → ⊥
          refused p q = cc

      of_decoded :
          (raw : Text) (q : Result Config)
          → read_file path ≡ ok raw
          → decode raw ≡ q
          → IsLoaded read_file decode path (decoded quote walk path q)
      of_decoded raw (err f) h k = inr (inl (raw, f, h, k))
      of_decoded raw (ok d) h k = of_checks raw d (validate quote walk (apply_defaults d)) h k refl

      of_file :
          (q : Result Text)
          → read_file path ≡ q
          → IsLoaded read_file decode path (read quote walk decode path q)
      of_file (err f) h = inl (f, h)
      of_file (ok raw) h = of_decoded raw (decode raw) h refl
