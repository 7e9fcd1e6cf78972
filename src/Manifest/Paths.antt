-- ===== src/Manifest/Paths.antt =====
-- path.Clean, and the confinement of host paths (internal/manifest/validate.go).
use mathlib.Core.List.{reverse}
use snowdeploy.Base.{
  Text, lit, ◌==◌, is_empty, has_prefix, split, join, Bool, true, false, ◌||◌, List, [], ◌∷◌, ◌++◌,
  Option, none, some, Error, errors_new, if◌then◌else◌,
}

-- One path element, onto the elements kept so far, the last one first.
abbrev pub back_up : Bool → List Text → List Text
back_up true [] = []
back_up false [] = lit ".." ∷ []
back_up rooted (e ∷ kept) = if e == lit ".." then lit ".." ∷ e ∷ kept else kept

unfoldable pub clean_step : Bool → Text → List Text → List Text
clean_step rooted e kept =
    if is_empty e || e == lit "."
    then kept
    else if e == lit ".."
    then back_up rooted kept
    else e ∷ kept

unfoldable pub clean_elements : Bool → List Text → List Text → List Text
unfolding clean_step
clean_elements rooted [] kept = reverse kept
clean_elements rooted (e ∷ es) kept = clean_elements rooted es (clean_step rooted e kept)

unfoldable pub clean_text : Bool → List Text → Text
clean_text true es = lit "/" ++ join (lit "/") es
clean_text false [] = lit "."
clean_text false (e ∷ es) = join (lit "/") (e ∷ es)

-- path.Clean
unfoldable pub clean : Text → Text
unfolding clean_elements clean_text
clean p =
    let rooted = has_prefix p (lit "/") in
    clean_text rooted (clean_elements rooted (split b'/' p) [])

unfoldable pub under_some : Text → List Text → Bool
under_some c [] = false
under_some c (prefix ∷ prefixes) = has_prefix c (clean prefix ++ lit "/") || under_some c prefixes

-- %v of a []string
abbrev pub texts : List Text → Text
texts ts = lit "[" ++ join (lit " ") ts ++ lit "]"

unfoldable pub validate_host_path : Text → List Text → Option Error
validate_host_path p [] = none
validate_host_path p (prefix ∷ prefixes) =
    if has_prefix p (lit "/")
    then if under_some (clean p) (prefix ∷ prefixes)
      then none
      else some (
          errors_new (
            lit "resolves to "
            ++ clean p
            ++ lit ", outside the allowed prefixes "
            ++ texts (prefix ∷ prefixes)))
    else some (errors_new (lit "is not an absolute host path"))
