-- ===== src/Api/Tokens.antt =====
-- internal/api/auth.go: the token hash file, its scopes, and the bearer that it admits.
use snowdeploy.Base.{
  ℕ, ◌+◌, Text, lit, ◌==◌, is_empty, has_prefix, trim_prefix, trim_space, is_space, itoa, split,
  join, leb, ltb, Bool, true, false, not, ◌||◌, List, [], ◌∷◌, ◌++◌, map, filter, onto_head, Option,
  none, some, Error, errors_new, wrap, Result, ok, err, if◌then◌else◌,
}

-- The mutating operations.
pub data Operation : Type 0 where
  deploy rollback converge : Operation

-- nil allows every operation; a set allows its members.
abbrev pub Scope : Type 0
Scope = Option (List Operation)

abbrev pub same_operation : Operation → Operation → Bool
same_operation Operation.deploy Operation.deploy = true
same_operation Operation.rollback Operation.rollback = true
same_operation Operation.converge Operation.converge = true
same_operation _ _ = false

abbrev pub member : Operation → List Operation → Bool
member a [] = false
member a (b ∷ bs) = same_operation a b || member a bs

abbrev pub allows : Scope → Operation → Bool
allows none a = true
allows (some s) a = member a s

unfoldable pub known_action : Text → Option Operation
known_action name =
    if name == lit "deploy"
    then some Operation.deploy
    else if name == lit "rollback"
    then some Operation.rollback
    else if name == lit "converge"
    then some Operation.converge
    else none

-- strings.Fields
unfoldable pub split_spaces : Text → List Text
split_spaces [] = [] ∷ []
split_spaces (c ∷ s) =
    let rest = split_spaces s in if is_space c then [] ∷ rest else onto_head c rest

unfoldable pub fields : Text → List Text
unfolding split_spaces
fields s = filter (λ t. not (is_empty t)) (split_spaces s)

pub record TokenLine : Type 0 where
  pub hash : Text
  pub label : Text
  pub allowed : Scope

-- bufio.Scanner gives up on a line of 64 KiB, in bytes of UTF-8.
abbrev utf8_length : Text → ℕ
utf8_length [] = 0
utf8_length (c ∷ s) =
    (if ltb c 0x80 then 1 else if ltb c 0x800 then 2 else if ltb c 0x10000 then 3 else 4)
    + utf8_length s

abbrev pub too_long : Text → Bool
too_long line = leb 65536 (utf8_length line)

-- The lines that the scanner gives: the text behind the last line break is one unless it is empty.
unfoldable pub scanned : List Text → List Text
scanned [] = []
scanned ([] ∷ []) = []
scanned (line ∷ lines) = line ∷ scanned lines

abbrev pub label_of : List Text → Text
label_of [] = lit "cli"
label_of (f ∷ fs) = join (lit " ") (f ∷ fs)

abbrev pub with_line : TokenLine → Result (List TokenLine) → Result (List TokenLine)
with_line line (ok lines) = ok (line ∷ lines)
with_line line (err e) = err e

-- `%q`, unicode.ToLower of a code point, and SHA-256 in hexadecimal digits.
module _ (quote : Text → Text) (lower : ℕ → ℕ) (sha256 : Text → Text) where
  abbrev pub with_action :
      Text → Option Operation → Result (List Operation) → Result (List Operation)
  with_action name none rest =
      err (errors_new (quote name ++ lit " is not an action this daemon offers"))
  with_action name (some a) (ok allowed) = ok (a ∷ allowed)
  with_action name (some a) (err e) = err e

  unfoldable pub parse_names : List Text → Result (List Operation)
  parse_names [] = ok []
  parse_names (name ∷ names) = with_action name (known_action name) (parse_names names)

  unfoldable pub parse_scope : Text → Result (List Operation)
  parse_scope field = if is_empty field then ok [] else parse_names (split b',' field)

  -- strings.HasPrefix(strings.ToLower(field), "scope")
  abbrev pub scope_like : Text → Bool
  scope_like field = has_prefix (map lower field) (lit "scope")

  abbrev pub scoped : Result (List Operation) → Result (List Text × Scope)
  scoped (ok allowed) = ok ([], some allowed)
  scoped (err e) = err e

  -- A field that looks like a scope field, and those behind it.
  unfoldable pub scope_field : Text → List Text → Result (List Text × Scope)
  scope_field field (next ∷ rest) =
      err
        (errors_new (quote field ++ lit " is not the last field; a scope field follows the label"))
  scope_field field [] =
      if has_prefix field (lit "scope=")
      then scoped (parse_scope (trim_prefix field (lit "scope=")))
      else err
          (errors_new (quote field ++ lit " is not a scope field; write scope=<action>[,<action>]"))

  abbrev pub with_field : Text → Result (List Text × Scope) → Result (List Text × Scope)
  with_field field (ok (label, allowed)) = ok (field ∷ label, allowed)
  with_field field (err e) = err e

  -- The loop over the fields behind the hash: those of the label, and the scope.
  unfoldable pub label_fields : List Text → Result (List Text × Scope)
  label_fields [] = ok ([], none)
  label_fields (field ∷ rest) =
      let behind = label_fields rest in
      if scope_like field then scope_field field rest else with_field field behind

  abbrev pub line_of : Text → Result (List Text × Scope) → Result TokenLine
  line_of hash (err e) = err e
  line_of hash (ok (label, allowed)) =
      ok (record { hash = map lower hash; label = label_of label; allowed = allowed })

  -- A text without a field would be an index out of range; no line that the file's reader passes is one.
  unfoldable pub parse_fields : List Text → Result TokenLine
  parse_fields [] = err (errors_new (lit "index out of range"))
  parse_fields (hash ∷ rest) = line_of hash (label_fields rest)

  unfoldable pub parse_token_line : Text → Result TokenLine
  parse_token_line text = parse_fields (fields text)

  -- A line that the file's reader does not pass on.
  abbrev pub is_skipped : Text → Bool
  is_skipped text = is_empty text || has_prefix text (lit "#")

  abbrev pub after_line : ℕ → Result TokenLine → Result (List TokenLine) → Result (List TokenLine)
  after_line number (err e) rest = err (wrap (lit "line " ++ itoa number ++ lit ": " ++ e.text) e)
  after_line number (ok line) rest = with_line line rest

  unfoldable pub parse_lines : ℕ → List Text → Result (List TokenLine)
  parse_lines number [] = ok []
  parse_lines number (line ∷ lines) =
      let rest = parse_lines (number + 1) lines in
      if too_long line
      then err (errors_new (lit "bufio.Scanner: token too long"))
      else if is_skipped (trim_space line)
      then rest
      else after_line number (parse_token_line (trim_space line)) rest

  unfoldable pub parse_token_hash_file : Text → Result (List TokenLine)
  parse_token_hash_file content = parse_lines 1 (scanned (split b'\n' content))

  unfoldable pub find_hash : Text → List TokenLine → Option (Text × Scope)
  find_hash want [] = none
  find_hash want (line ∷ lines) =
      if line.hash == want then some (line.label, line.allowed) else find_hash want lines

  abbrev pub admit : Text → Result (List TokenLine) → Option (Text × Scope)
  admit token (err e) = none
  admit token (ok lines) = find_hash (sha256 token) lines

  -- What reading the file gives is the argument `read`.
  unfoldable pub match_token : Text → Result Text → Text → Option (Text × Scope)
  match_token path (err e) token = none
  match_token path (ok content) token =
      if is_empty path then none else admit token (parse_token_hash_file content)

  abbrev pub malformed : Text → Result (List TokenLine) → Option Error
  malformed path (ok lines) = none
  malformed path (err e) = some (wrap (lit "cli_token_hash_file " ++ path ++ lit ": " ++ e.text) e)

  unfoldable pub validate_cli_token_hash_file : Text → Result Text → Option Error
  validate_cli_token_hash_file path (err e) = none
  validate_cli_token_hash_file path (ok content) =
      if is_empty path then none else malformed path (parse_token_hash_file content)

-- The token of an Authorization header.
unfoldable pub bearer_token : Text → Option Text
bearer_token header =
    let token = trim_space (trim_prefix header (lit "Bearer ")) in
    if has_prefix header (lit "Bearer ") then if is_empty token then none else some token else none
