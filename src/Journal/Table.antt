-- ===== src/Journal/Table.antt =====
-- internal/journal/journal.go: the table `deploys` and the statements that write it. Each statement
-- takes what the driver itself may fail with, and where, as `fault`.
use snowdeploy.Base.{
  ℕ, suc, ◌+◌, Text, lit, itoa, eqb, Bool, true, false, ◌&&◌, List, [], ◌∷◌, ◌++◌, Option, none,
  some, Error, wrap, not_found, already_finished, Result, ok, err, if◌then◌else◌,
}
use snowdeploy.Journal.Defs.{Entry, State}

-- The driver fails at Exec, which then wrote nothing; behind it, at LastInsertId or RowsAffected; or at
-- the SELECT of explainNoUpdate.
pub data Fault : Type 0 where
  at_exec behind_exec at_inspect : Error → Fault

-- The rows in the order of their insertion, and the next AUTOINCREMENT id.
pub record Table : Type 0 where
  pub rows : List Entry
  pub next_id : ℕ

abbrev pub empty : Table
empty = record { rows = []; next_id = 1 }

abbrev pub is_null : Option ℕ → Bool
is_null none = true
is_null (some t) = false

-- `finished_at IS NULL`
abbrev pub is_unfinished : Entry → Bool
is_unfinished e = is_null e.finished_at

abbrev started_or : Option ℕ → ℕ → ℕ
started_or none now = now
started_or (some t) now = t

-- The INSERT leaves finished_at NULL.
abbrev pub inserted : Entry → ℕ → ℕ → Entry
inserted e id now = record e {
  id = id;
  started_at = some (started_or e.started_at now);
  finished_at = none;
}

-- The table behind the INSERT.
abbrev pub appended : ℕ → Entry → Table → Table
appended now e t = record {
  rows = t.rows ++ inserted e t.next_id now ∷ [];
  next_id = t.next_id + 1;
}

unfoldable pub begin : Option Fault → ℕ → Entry → Table → Result ℕ × Table
begin (some (at_exec f)) now e t = (err (wrap (lit "begin journal entry: " ++ f.text) f), t)
begin (some (behind_exec f)) now e t =
    (err (wrap (lit "begin journal entry: " ++ f.text) f), appended now e t)
begin (some (at_inspect f)) now e t = (ok t.next_id, appended now e t)
begin none now e t = (ok t.next_id, appended now e t)

-- `WHERE id = ? AND finished_at IS NULL`
abbrev pub matches : ℕ → Entry → Bool
matches id e = eqb e.id id && is_unfinished e

unfoldable pub set_rows : ℕ → (Entry → Entry) → List Entry → List Entry
set_rows id f [] = []
set_rows id f (e ∷ es) = (if matches id e then f e else e) ∷ set_rows id f es

unfoldable pub affected : ℕ → List Entry → ℕ
affected id [] = 0
affected id (e ∷ es) = if matches id e then suc (affected id es) else affected id es

-- `SELECT finished_at FROM deploys WHERE id = ?`: whether there is a row.
unfoldable pub has_row : ℕ → List Entry → Bool
has_row id [] = false
has_row id (e ∷ es) = if eqb e.id id then true else has_row id es

unfoldable pub explain_no_update : Option Error → ℕ → Table → Error
explain_no_update (some f) id t =
    wrap (lit "inspect journal entry " ++ itoa id ++ lit ": " ++ f.text) f
explain_no_update none id t =
    if has_row id t.rows
    then record {
      text = lit "entry " ++ itoa id ++ lit ": journal entry is already finished";
      chain = already_finished ∷ [];
    }
    else record {
      text = lit "entry " ++ itoa id ++ lit ": journal entry not found";
      chain = not_found ∷ [];
    }

-- The table behind the UPDATE, and the result of update where RowsAffected answers.
abbrev pub changed : ℕ → (Entry → Entry) → Table → Table
changed id change t = record t { rows = set_rows id change t.rows }

abbrev pub counted : Option Error → ℕ → (Entry → Entry) → Table → Option Error × Table
counted inspect id change t =
    let t' = changed id change t in
    if eqb (affected id t.rows) 1 then (none, t') else (some (explain_no_update inspect id t'), t')

abbrev pub update_error : ℕ → Error → Error
update_error id f = wrap (lit "update journal entry " ++ itoa id ++ lit ": " ++ f.text) f

unfoldable pub update : Option Fault → ℕ → (Entry → Entry) → Table → Option Error × Table
unfolding set_rows affected explain_no_update
update (some (at_exec f)) id change t = (some (update_error id f), t)
update (some (behind_exec f)) id change t = (some (update_error id f), changed id change t)
update (some (at_inspect f)) id change t = counted (some f) id change t
update none id change t = counted none id change t

module _ (fault : Option Fault) (id : ℕ) where
  unfoldable pub progress : State → Text → Table → Option Error × Table
  unfolding update
  progress st detail = update fault id (λ e. record e { state = st; detail = detail })

  unfoldable pub finish : ℕ → State → Text → Table → Option Error × Table
  unfolding update
  finish now st detail =
      update fault id (λ e. record e { state = st; detail = detail; finished_at = some now })

  unfoldable pub set_pr : ℕ → Table → Option Error × Table
  unfolding update
  set_pr n = update fault id (λ e. record e { pr_number = n })

  unfoldable pub set_digests : Text → Text → Table → Option Error × Table
  unfolding update
  set_digests old new = update fault id (λ e. record e { old_digest = old; new_digest = new })

  unfoldable pub set_merge_sha : Text → Table → Option Error × Table
  unfolding update
  set_merge_sha sha = update fault id (λ e. record e { merge_sha = sha })
