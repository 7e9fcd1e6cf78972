-- ===== src/Manifest/Continued.antt =====
-- Lines that systemd would join: ValidateRendered (internal/manifest/validate.go) reads each alone.
use mathlib.Core.List.{reverse, reverse_aux}
use snowdeploy.Base.{
  ℕ, Text, lit, ◌≡◌, refl, eqb, Bool, true, false, cut, split, trim_space, trim_left, is_space,
  contains, ◌==◌, has_prefix, [], ◌∷◌, ◌++◌, Option, none, All, Bool-cases, inl, inr, if◌then◌else◌,
  is_empty, ◌||◌,
}
use snowdeploy.Manifest.Rendered.{
  setting, check_setting, check_lines, check_value, check_args, check_key, forbidden_key,
  forbidden_podman_args, validate_rendered,
}

-- A text without `d`.
abbrev pub Lacks : ℕ → Text → Type 0
Lacks d = All (λ c. eqb c d ≡ false)

reverse_aux-Lacks : (d : ℕ) (s acc : Text) → Lacks d s → Lacks d acc → Lacks d (reverse_aux s acc)
reverse_aux-Lacks d [] acc h k = k
reverse_aux-Lacks d (c ∷ s) acc h k = reverse_aux-Lacks d s (c ∷ acc) h.1 (h.0, k)

trim_left-Lacks : (d : ℕ) (s : Text) → Lacks d s → Lacks d (trim_left s)
unfolding trim_left
trim_left-Lacks d [] h = tt
trim_left-Lacks d (c ∷ s) h = elim (Bool-cases (is_space c)) [
  | inl space ↦ rw space (trim_left-Lacks d s h.1)
  | inr text ↦ rw text h
]

trim_space-Lacks : (d : ℕ) (s : Text) → Lacks d s → Lacks d (trim_space s)
unfolding trim_space
trim_space-Lacks d s h =
    reverse_aux-Lacks d (trim_left (reverse (trim_left s))) []
      (trim_left-Lacks d (reverse (trim_left s))
        (reverse_aux-Lacks d (trim_left s) [] (trim_left-Lacks d s h) tt))
      tt

cut-Lacks : (d : ℕ) (s : Text) → Lacks d s → (cut d s).2 ≡ false
unfolding cut
cut-Lacks d [] h = refl
cut-Lacks d (c ∷ s) h = rw h.0 (cut-Lacks d s h.1)

split-Lacks : (d : ℕ) (s : Text) → Lacks d s → split d s ≡ s ∷ []
unfolding split
split-Lacks d [] h = refl
split-Lacks d (c ∷ s) h = rw (h.0, split-Lacks d s h.1) refl

abbrev no_setting : Option (Text × Text)
no_setting = none

-- A line without an equals sign sets nothing.
setting-none : (line : Text) → Lacks b'=' line → setting line ≡ none
unfolding setting
setting-none line h = rw (cut-Lacks b'=' (trim_space line) (trim_space-Lacks b'=' line h)) (
    either (
      is_empty (trim_space line)
      || has_prefix (trim_space line) (lit "#")
      || has_prefix (trim_space line) (lit ";")))
  where
    either : (b : Bool) → (if b then none else none) ≡ no_setting
    either true = refl
    either false = refl

first_line : check_setting 1 (setting (lit "PodmanArgs=\\")) ≡ []
first_line =
    unfold check_setting setting lit trim_space trim_left is_space cut has_prefix forbidden_key ◌==◌
      check_key check_value check_args forbidden_podman_args contains in
    refl

two_lines :
    (line : Text)
    → split b'\n' (lit "PodmanArgs=\\\n" ++ line) ≡ lit "PodmanArgs=\\" ∷ split b'\n' line
unfolding split lit
two_lines line = refl

-- An argument line behind `PodmanArgs=\` is let through, whatever it is, as long as it holds no
-- equals sign and no line break: the two lines are not joined.
pub continuation_unread :
    (line : Text)
    → Lacks b'=' line
    → Lacks b'\n' line
    → validate_rendered (lit "PodmanArgs=\\\n" ++ line) ≡ none
unfolding validate_rendered check_lines
continuation_unread line h k =
    rw (two_lines line, split-Lacks b'\n' line k, first_line, setting-none line h) refl
