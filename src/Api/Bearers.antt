-- ===== src/Api/Bearers.antt =====
-- The bearer that the token file admits (internal/api/auth.go).
use snowdeploy.Base.{
  ℕ, Text, ◌≡◌, ◌≢◌, ◌⊎◌, Error, trim_space, split, true, false, List, [], Option, none, some,
  Result, ok, err, All, In,
}
use snowdeploy.Api.Tokens.{
  Scope, TokenLine, too_long, scanned, parse_token_line, is_skipped, parse_token_hash_file,
}
use snowdeploy.Api.Grants.{IsLine}

-- What an optional answer says, if there is one.
abbrev pub OnSome : {A : Type 0} → (A → Type 0) → Option A → Type 0
OnSome P none = Unit
OnSome P (some x) = P x

module _ (quote : Text → Text) (lower : ℕ → ℕ) (sha256 : Text → Text) where
  -- The line is skipped, or is accepted.
  abbrev pub IsReadable : Text → Type 0
  IsReadable text =
      (too_long text ≡ false)
      × ((is_skipped quote lower sha256 (trim_space text) ≡ true)
          ⊎ ((line : TokenLine) × (parse_token_line quote lower sha256 (trim_space text)
                ≡ ok line)))

  abbrev pub IsReading : List Text → List TokenLine → Type 0
  IsReading texts lines =
      All IsReadable texts
      × ((line : TokenLine)
          → In line lines
          → (text : Text) × In text texts
            × (parse_token_line quote lower sha256 (trim_space text) ≡ ok line))

  -- The grant comes from a line of the file, and the whole file is readable.
  pub record IsGranted (path : Text) (read : Result Text) (token : Text) (grant : Text × Scope)
      : Type 0 where
    pub named : path ≢ []
    pub content : Text
    pub was_read : read ≡ ok content
    pub readable : All IsReadable (scanned (split b'\n' content))
    pub text : Text
    pub among : In text (scanned (split b'\n' content))
    pub line : TokenLine
    pub says : IsLine quote lower sha256 (trim_space text) line
    pub of_token : line.hash ≡ sha256 token
    pub granted : grant ≡ (line.label, line.allowed)

  -- The file admits no such token: it is not configured, not read, malformed, or has no line for it.
  abbrev pub IsRefused : Text → Result Text → Text → Type 0
  IsRefused path read token =
      (path ≡ [])
      ⊎ ((e : Error) × (read ≡ err e))
      ⊎ ((content : Text) × (e : Error) × (read ≡ ok content)
          × (parse_token_hash_file quote lower sha256 content ≡ err e))
      ⊎ ((content : Text) × (lines : List TokenLine) × (read ≡ ok content)
          × (parse_token_hash_file quote lower sha256 content ≡ ok lines)
          × All (λ line. line.hash ≢ sha256 token) lines)

  abbrev pub IsJudged : Text → Result Text → Text → Option (Text × Scope) → Type 0
  IsJudged path read token none = IsRefused path read token
  IsJudged path read token (some grant) = IsGranted path read token grant

  -- What a search for a hash finds.
  abbrev IsFound : Text → List TokenLine → Option (Text × Scope) → Type 0
  IsFound want lines none = All (λ line. line.hash ≢ want) lines
  IsFound want lines (some grant) =
      (line : TokenLine) × In line lines × (line.hash ≡ want) × (grant ≡ (line.label, line.allowed))
