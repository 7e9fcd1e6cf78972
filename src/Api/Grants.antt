-- ===== src/Api/Grants.antt =====
-- What a bearer is granted (internal/api/auth.go): only what the token file says, read as a whole.
use mathlib.Core.Path.{subst}
use snowdeploy.Base.{
  ℕ, Text, lit, ◌≡◌, ◌⊎◌, has_prefix, trim_prefix, split, true, false, List, [], ◌∷◌, ◌++◌, map,
  none, some, Result, ok, err, All,
}
use snowdeploy.Api.Tokens.{Operation, Scope, TokenLine, fields, label_of, scope_like}

-- The name of an operation in a scope field.
abbrev pub operation_name : Operation → Text
operation_name Operation.deploy = lit "deploy"
operation_name Operation.rollback = lit "rollback"
operation_name Operation.converge = lit "converge"

-- What a result says, if it is not an error.
abbrev pub OnOk : {A : Type 0} → (A → Type 0) → Result A → Type 0
OnOk P (ok x) = P x
OnOk P (err e) = Unit

pub OnOk-at : {A : Type 0} (P : A → Type 0) (r : Result A) (x : A) → OnOk P r → r ≡ ok x → P x
OnOk-at P r x h e = subst (OnOk P) e h

module _ (quote : Text → Text) (lower : ℕ → ℕ) (sha256 : Text → Text) where
  -- A scope field's names, and what it allows.
  abbrev pub Names : Text → List Operation → Type 0
  Names field allowed =
      ((field ≡ []) × (allowed ≡ [])) ⊎ (split b',' field ≡ map operation_name allowed)

  -- What the fields behind the hash say: no field of the label looks like a scope field, whatever its
  -- case; without a scope the label is all of them; with one, a last field of exactly the form
  -- `scope=…` names the operations allowed.
  abbrev pub IsLabelled : List Text → List Text × Scope → Type 0
  IsLabelled rest (label, none) =
      All (λ f. scope_like quote lower sha256 f ≡ false) label × (rest ≡ label)
  IsLabelled rest (label, some allowed) =
      All (λ f. scope_like quote lower sha256 f ≡ false) label
      × ((field : Text) × (rest ≡ label ++ field ∷ [])
          × (has_prefix field (lit "scope=") ≡ true)
          × Names (trim_prefix field (lit "scope=")) allowed)

  -- What a line of the token file says.
  abbrev pub IsLine : Text → TokenLine → Type 0
  IsLine text line =
      (hash : Text) × (rest : List Text) × (label : List Text) × (fields text ≡ hash ∷ rest)
      × (line.hash ≡ map lower hash)
      × (line.label ≡ label_of label)
      × IsLabelled rest (label, line.allowed)
