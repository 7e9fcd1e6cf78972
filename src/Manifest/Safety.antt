-- ===== src/Manifest/Safety.antt =====
-- A rendered unit that ValidateRendered lets through (internal/manifest/validate.go) is safe, line
-- by line.
use mathlib.Core.Path.{subst}
use snowdeploy.Base.{
  ℕ, ◌+◌, Text, lit, ◌≡◌, ◌≢◌, refl, ap, ◌⊎◌, inl, inr, ◌==◌, ==_iff, has_prefix, contains,
  trim_space, cut, eqb, is_empty, drop_prefix, split, not, Bool, true, false, List, [], ◌∷◌, ◌++◌,
  Option, none, some, Error, All, Bool-cases, arith,
}
use snowdeploy.Occurs.{
  Occurs, Occurs-contains, contains-Occurs, has_prefix-split, errors_join-none, append-eq-nil,
}
use snowdeploy.Manifest.Rendered.{
  forbidden_key, forbidden_podman_args, has_any_prefix, loopback_publish_prefixes, check_args,
  refuse_if, check_value, check_key, setting, check_setting, check_lines, validate_rendered,
}

-- A value of PublishPort that binds loopback only.
abbrev pub IsLoopback : Text → Type 0
IsLoopback value =
    ((rest : Text) × (value ≡ lit "127.0.0.1:" ++ rest))
    ⊎ ((rest : Text) × (value ≡ lit "[::1]:" ++ rest))

-- What an argument of PodmanArgs must not hold.
abbrev pub escapes : List Text
escapes =
    lit "--privileged"
    ∷ lit "--cap-add"
    ∷ lit "--userns"
    ∷ lit "--pid=host"
    ∷ lit "--ipc=host"
    ∷ lit "--network=host"
    ∷ lit "--net=host"
    ∷ lit "--security-opt"
    ∷ lit "--device"
    ∷ lit "--publish"
    ∷ lit "-p "
    ∷ []

pub record IsSafe (key value : Text) : Type 0 where
  pub adds_no_capability : key ≢ lit "AddCapability"
  pub not_privileged : key ≢ lit "Privileged"
  pub adds_no_device : key ≢ lit "AddDevice"
  pub keeps_label : key ≢ lit "SecurityLabelDisable"
  pub publishes_loopback : key ≡ lit "PublishPort" → IsLoopback value
  pub not_host_network : key ≡ lit "Network" → value ≢ lit "host"
  pub pins_digest : key ≡ lit "Image" → Occurs (lit "@sha256:") value
  pub escapes_nothing :
      key ≡ lit "PodmanArgs" → All (λ arg. ¬ (Occurs arg (value ++ lit " "))) escapes

-- The line, without the space around it, is no comment, and is a key, an equals sign and a value: the
-- key is what stands before the first equals sign and the value what stands behind it, each without
-- the space around it.
pub record Sets (line key value : Text) : Type 0 where
  pub before : Text
  pub behind : Text
  pub parts : trim_space line ≡ before ++ b'=' ∷ behind
  pub is_first : All (λ c. eqb c b'=' ≡ false) before
  pub its_key : key ≡ trim_space before
  pub its_value : value ≡ trim_space behind
  pub no_hash : (rest : Text) → trim_space line ≢ lit "#" ++ rest
  pub no_semicolon : (rest : Text) → trim_space line ≢ lit ";" ++ rest

abbrev pub IsSafeLine : Text → Type 0
IsSafeLine line = (key value : Text) → Sets line key value → IsSafe key value

eqb_self : (d : ℕ) → eqb d d ≡ true
eqb_self d = ground arith

cut_first : (d : ℕ) (k v : Text) → All (λ c. eqb c d ≡ false) k → cut d (k ++ d ∷ v) ≡ (k, v, true)
unfolding cut
cut_first d [] v h = rw (eqb_self d) refl
cut_first d (c ∷ k) v h = rw (h.0, cut_first d k v h.1) refl

not_prefix : (s p : Text) → ((rest : Text) → s ≢ p ++ rest) → has_prefix s p ≡ false
not_prefix s p h = elim (Bool-cases (has_prefix s p)) [
  | inl found ↦ absurd (h (drop_prefix s p) (has_prefix-split s p found))
  | inr absent ↦ absent
]

full_middle : (k v : Text) (d : ℕ) → is_empty (k ++ d ∷ v) ≡ false
full_middle [] v d = refl
full_middle (c ∷ k) v d = refl

Sets-setting : (line key value : Text) → Sets line key value → setting line ≡ some (key, value)
unfolding setting
Sets-setting line key value s =
    rw
      (
        not_prefix (trim_space line) (lit "#") s.no_hash,
        not_prefix (trim_space line) (lit ";") s.no_semicolon,
        s.parts,
        full_middle s.before s.behind b'=',
        cut_first b'=' s.before s.behind s.is_first,
        s.its_key,
        s.its_value,
      )
      refl

refuse_if-nil : (b : Bool) (e : Error) → refuse_if b e ≡ [] → b ≡ false
refuse_if-nil true e h = cc
refuse_if-nil false e h = refl

not-false : (b : Bool) → not b ≡ false → b ≡ true
not-false true h = refl
not-false false h = cc

loopback : (value : Text) → has_any_prefix value loopback_publish_prefixes ≡ true → IsLoopback value
unfolding has_any_prefix loopback_publish_prefixes
loopback value h = elim (Bool-cases (has_prefix value (lit "127.0.0.1:"))) [
  | inl v4 ↦ inl (drop_prefix value (lit "127.0.0.1:"), has_prefix-split value _ v4)
  | inr no_v4 ↦ elim (Bool-cases (has_prefix value (lit "[::1]:"))) [
    | inl v6 ↦ inr (drop_prefix value (lit "[::1]:"), has_prefix-split value _ v6)
    | inr no_v6 ↦ cc (rw (no_v4, no_v6) at h)
  ]
]

check_args-nil :
    (n : ℕ) (value : Text) (args : List Text)
    → check_args n value args ≡ []
    → All (λ arg. ¬ (Occurs arg (value ++ lit " "))) args
unfolding check_args
check_args-nil n value [] h = tt
check_args-nil n value (arg ∷ args) h = elim (Bool-cases (contains (value ++ lit " ") arg)) [
  | inl found ↦ cc (rw found at h)
  | inr absent ↦ (
    λ o. cc (Occurs-contains arg (value ++ lit " ") o),
    check_args-nil n value args (rw absent at h),
  )
]

-- The branches of the `switch`, at each key.
publish_value :
    (n : ℕ) (value : Text) → check_value n (lit "PublishPort") value ≡ [] → IsLoopback value
unfolding check_value lit ◌==◌
publish_value n value h = loopback value (not-false _ (refuse_if-nil _ _ h))

network_value :
    (n : ℕ) (value : Text) → check_value n (lit "Network") value ≡ [] → value ≢ lit "host"
unfolding check_value lit ◌==◌
network_value n value h e = cc (refuse_if-nil _ _ h, (==_iff value (lit "host")).1 e)

image_value :
    (n : ℕ) (value : Text) → check_value n (lit "Image") value ≡ [] → Occurs (lit "@sha256:") value
unfolding check_value lit ◌==◌
image_value n value h = contains-Occurs value (lit "@sha256:") (not-false _ (refuse_if-nil _ _ h))

args_value :
    (n : ℕ) (value : Text)
    → check_value n (lit "PodmanArgs") value ≡ []
    → All (λ arg. ¬ (Occurs arg (value ++ lit " "))) escapes
unfolding check_value lit ◌==◌ forbidden_podman_args
args_value n value h = check_args-nil n value forbidden_podman_args h

-- A key that is not forbidden is none of the four.
forbidden_keys :
    (key : Text)
    → forbidden_key key ≡ none
    → (key ≢ lit "AddCapability")
      × (key ≢ lit "Privileged")
      × (key ≢ lit "AddDevice")
      × (key ≢ lit "SecurityLabelDisable")
forbidden_keys key h = (
  λ e. cc (h, ap forbidden_key e, at_add),
  λ e. cc (h, ap forbidden_key e, at_privileged),
  λ e. cc (h, ap forbidden_key e, at_device),
  λ e. cc (h, ap forbidden_key e, at_label),
)
  where
    at_add : forbidden_key (lit "AddCapability") ≡ some (lit "adds a Linux capability")
    at_add = unfold forbidden_key lit ◌==◌ in refl

    at_privileged : forbidden_key (lit "Privileged") ≡ some (lit "requests a privileged container")
    at_privileged = unfold forbidden_key lit ◌==◌ in refl

    at_device : forbidden_key (lit "AddDevice") ≡ some (lit "passes a host device through")
    at_device = unfold forbidden_key lit ◌==◌ in refl

    at_label :
        forbidden_key (lit "SecurityLabelDisable") ≡ some (lit "disables SELinux confinement")
    at_label = unfold forbidden_key lit ◌==◌ in refl

check_value-IsSafe :
    (n : ℕ) (key value : Text)
    → forbidden_key key ≡ none
    → check_value n key value ≡ []
    → IsSafe key value
check_value-IsSafe n key value free h =
    let (no_add, no_privileged, no_device, no_label) = forbidden_keys key free in
    record {
      adds_no_capability = no_add;
      not_privileged = no_privileged;
      adds_no_device = no_device;
      keeps_label = no_label;
      publishes_loopback =
          λ e. publish_value n value (subst (λ (k : Text). check_value n k value ≡ []) e h);
      not_host_network =
          λ e. network_value n value (subst (λ (k : Text). check_value n k value ≡ []) e h);
      pins_digest = λ e. image_value n value (subst (λ (k : Text). check_value n k value ≡ []) e h);
      escapes_nothing =
          λ e. args_value n value (subst (λ (k : Text). check_value n k value ≡ []) e h);
    }

check_key-IsSafe :
    (n : ℕ) (key value : Text) (r : Option Text)
    → forbidden_key key ≡ r
    → check_key n key value r ≡ []
    → IsSafe key value
unfolding check_key
check_key-IsSafe n key value none free h = check_value-IsSafe n key value free h
check_key-IsSafe n key value (some why) free h = cc

check_setting-IsSafeLine :
    (n : ℕ) (line : Text) → check_setting n (setting line) ≡ [] → IsSafeLine line
unfolding check_setting
check_setting-IsSafeLine n line h key value sets =
    check_key-IsSafe n key value (forbidden_key key) refl (
      subst (λ (o : Option (Text × Text)). check_setting n o ≡ [])
        (Sets-setting line key value sets) h)

check_lines-IsSafeLine :
    (n : ℕ) (lines : List Text) → check_lines n lines ≡ [] → All IsSafeLine lines
unfolding check_lines
check_lines-IsSafeLine n [] h = tt
check_lines-IsSafeLine n (line ∷ lines) h =
    let (here, rest) =
      append-eq-nil (check_setting n (setting line)) (check_lines (n + 1) lines) h in
    (check_setting-IsSafeLine n line here, check_lines-IsSafeLine (n + 1) lines rest)

-- Where ValidateRendered reports no error, every line of the unit that sets a key, by the equals sign in it,
-- sets a safe one:
-- no forbidden key; PublishPort on a loopback address; Network other than host; Image with a sha256
-- pin; PodmanArgs with no forbidden argument anywhere in it.
pub validate_rendered-safe :
    (unit : Text) → validate_rendered unit ≡ none → All IsSafeLine (split b'\n' unit)
unfolding validate_rendered
validate_rendered-safe unit h = check_lines-IsSafeLine 1 (split b'\n' unit) (errors_join-none _ h)
