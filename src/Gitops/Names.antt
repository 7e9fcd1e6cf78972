-- ===== src/Gitops/Names.antt =====
-- internal/gitops: the names that may stand in a path, and path.Join.
pub mod Plain
use snowdeploy.Base.{
  Text, Bool, lit, ◌==◌, is_empty, contains, join, filter, not, ◌||◌, List, [], ◌∷◌, ◌++◌, Option,
  none, some, Error, errors_new, if◌then◌else◌,
}
use snowdeploy.Manifest.Paths.{clean}

-- path.Join, and filepath.Join on Unix
abbrev join_given : List Text → Text
join_given [] = []
join_given (e ∷ es) = clean (join (lit "/") (e ∷ es))

unfoldable pub join_path : List Text → Text
unfolding clean
join_path elements = join_given (filter (λ e. not (is_empty e)) elements)

-- Not a plain file name.
abbrev pub is_path : Text → Bool
is_path name =
    name == lit "."
    || name == lit ".."
    || contains name (lit "/")
    || contains name (lit "\\")
    || contains name (lit "..")

unfoldable pub check_name : (Text → Text) → Text → Option Error
check_name quote name =
    if is_empty name
    then some (errors_new (lit "name is empty"))
    else if is_path name
    then some (errors_new (lit "name " ++ quote name ++ lit " is not a plain file name"))
    else none
