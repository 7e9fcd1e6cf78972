-- ===== src/Api/Accepts.antt =====
-- Which lines of the token file are accepted (internal/api/auth.go), and how a scope is written.
use snowdeploy.Base.{
  ℕ, Text, lit, ◌≡◌, refl, ap, ◌∙◌, has_prefix, trim_prefix, split, join, true, false, List, [],
  ◌∷◌, ◌++◌, map, none, some, ok, All, is_empty, ◌==◌,
}
use snowdeploy.Api.Tokens.{
  Operation, Scope, known_action, fields, label_of, parse_names, parse_scope, scope_like,
  scope_field, label_fields, parse_fields, parse_token_line,
}
use snowdeploy.Api.Grants.{operation_name}

known_action-operation_name : (a : Operation) → known_action (operation_name a) ≡ some a
unfolding known_action lit ◌==◌
known_action-operation_name Operation.deploy = refl
known_action-operation_name Operation.rollback = refl
known_action-operation_name Operation.converge = refl

-- The names of operations with commas between them.
abbrev pub printed : List Operation → Text
printed allowed = join (lit ",") (map operation_name allowed)

split_name :
    (a : Operation) (rest : Text)
    → split b',' (operation_name a ++ lit "," ++ rest) ≡ operation_name a ∷ split b',' rest
unfolding split lit
split_name Operation.deploy rest = refl
split_name Operation.rollback rest = refl
split_name Operation.converge rest = refl

split_last : (a : Operation) → split b',' (operation_name a) ≡ operation_name a ∷ []
unfolding split lit
split_last Operation.deploy = refl
split_last Operation.rollback = refl
split_last Operation.converge = refl

split-printed :
    (a : Operation) (more : List Operation)
    → split b',' (printed (a ∷ more)) ≡ map operation_name (a ∷ more)
unfolding join
split-printed a [] = split_last a
split-printed a (b ∷ more) =
    split_name a (join (lit ",") (map operation_name (b ∷ more)))
    ∙ ap (λ (names : List Text). operation_name a ∷ names) (split-printed b more)

printed_is_text : (a : Operation) (more : List Operation) → is_empty (printed (a ∷ more)) ≡ false
unfolding join lit
printed_is_text Operation.deploy [] = refl
printed_is_text Operation.rollback [] = refl
printed_is_text Operation.converge [] = refl
printed_is_text Operation.deploy (b ∷ more) = refl
printed_is_text Operation.rollback (b ∷ more) = refl
printed_is_text Operation.converge (b ∷ more) = refl

module _ (quote : Text → Text) (lower : ℕ → ℕ) (sha256 : Text → Text) where
  parse_names-map :
      (allowed : List Operation)
      → parse_names quote lower sha256 (map operation_name allowed) ≡ ok allowed
  unfolding parse_names
  parse_names-map [] = refl
  parse_names-map (a ∷ allowed) = rw (known_action-operation_name a, parse_names-map allowed) refl

  -- A scope that is printed is read back.
  parse_scope-printed :
      (allowed : List Operation) → parse_scope quote lower sha256 (printed allowed) ≡ ok allowed
  unfolding parse_scope
  parse_scope-printed [] = unfold join in refl
  parse_scope-printed (a ∷ allowed) =
      rw (printed_is_text a allowed, split-printed a allowed, parse_names-map (a ∷ allowed)) refl

  -- How a line is written: the fields of the label, none of which looks like a scope field, then the
  -- scope field, if there is one.
  abbrev pub IsWritten : List Text → List Text → Scope → Type 0
  IsWritten rest label none =
      All (λ f. scope_like quote lower sha256 f ≡ false) label × (rest ≡ label)
  IsWritten rest label (some allowed) =
      All (λ f. scope_like quote lower sha256 f ≡ false) label
      × ((field : Text) × (rest ≡ label ++ field ∷ [])
          × (scope_like quote lower sha256 field ≡ true)
          × (has_prefix field (lit "scope=") ≡ true)
          × (parse_scope quote lower sha256 (trim_prefix field (lit "scope=")) ≡ ok allowed))

  label_fields-label :
      (label : List Text)
      → All (λ f. scope_like quote lower sha256 f ≡ false) label
      → label_fields quote lower sha256 label ≡ ok (label, none)
  unfolding label_fields
  label_fields-label [] h = refl
  label_fields-label (f ∷ label) h = rw (h.0, label_fields-label label h.1) refl

  label_fields-scope :
      (label : List Text) (field : Text) (allowed : List Operation)
      → All (λ f. scope_like quote lower sha256 f ≡ false) label
      → scope_like quote lower sha256 field ≡ true
      → has_prefix field (lit "scope=") ≡ true
      → parse_scope quote lower sha256 (trim_prefix field (lit "scope=")) ≡ ok allowed
      → label_fields quote lower sha256 (label ++ field ∷ []) ≡ ok (label, some allowed)
  unfolding label_fields scope_field
  label_fields-scope [] field allowed h like exact parsed = rw (like, exact, parsed) refl
  label_fields-scope (f ∷ label) field allowed h like exact parsed =
      rw (h.0, label_fields-scope label field allowed h.1 like exact parsed) refl

  label_fields-IsWritten :
      (rest label : List Text) (allowed : Scope)
      → IsWritten rest label allowed
      → label_fields quote lower sha256 rest ≡ ok (label, allowed)
  label_fields-IsWritten rest label none (plain, same) =
      ap (λ (fs : List Text). label_fields quote lower sha256 fs) same
      ∙ label_fields-label label plain
  label_fields-IsWritten rest label (some allowed) (plain, (field, same, like, exact, parsed)) =
      ap (λ (fs : List Text). label_fields quote lower sha256 fs) same
      ∙ label_fields-scope label field allowed plain like exact parsed

  -- A line that is written so is accepted, with its hash in lower case, its label and its scope.
  parse_token_line-IsWritten :
      (text hash : Text) (rest label : List Text) (allowed : Scope)
      → fields text ≡ hash ∷ rest
      → IsWritten rest label allowed
      → parse_token_line quote lower sha256 text
        ≡ ok (record { hash = map lower hash; label = label_of label; allowed = allowed })
  unfolding parse_token_line parse_fields
  parse_token_line-IsWritten text hash rest label allowed same written =
      rw (same, label_fields-IsWritten rest label allowed written) refl
