-- ===== src/Gitops/Names/Plain.antt =====
-- The names that checkName lets through (internal/gitops/repo.go).
use snowdeploy.Base.{
  Text, lit, ◌≡◌, ◌≢◌, ◌==◌, ==→ne, is_empty, contains, Bool, false, ◌||◌, [], ◌∷◌, none,
  errors_new, ◌++◌, guard-eq-none, arith,
}
use snowdeploy.Occurs.{Occurs, Occurs-contains}
use snowdeploy.Gitops.Names.{is_path, check_name}

-- One path element, which is no way up.
pub record IsPlain (name : Text) : Type 0 where
  pub full : name ≢ []
  pub not_here : name ≢ lit "."
  pub no_slash : ¬ (Occurs (lit "/") name)
  pub no_backslash : ¬ (Occurs (lit "\\") name)
  pub no_way_up : ¬ (Occurs (lit "..") name)

absent : (p v : Text) → contains v p ≡ false → ¬ (Occurs p v)
absent p v h o = cc (Occurs-contains p v o)

nonempty : (s : Text) → is_empty s ≡ false → s ≢ []
nonempty [] h e = cc
nonempty (c ∷ s) h e = cc

or-eq-false_all :
    (a b c d e : Bool)
    → (a || b || c || d || e) ≡ false
    → (a ≡ false) × (b ≡ false) × (c ≡ false) × (d ≡ false) × (e ≡ false)
or-eq-false_all a b c d e h = ground arith

is_path-IsPlain : (name : Text) → name ≢ [] → is_path name ≡ false → IsPlain name
is_path-IsPlain name given plain =
    let none_of =
      or-eq-false_all (name == lit ".") (name == lit "..") (contains name (lit "/"))
        (contains name (lit "\\")) (contains name (lit "..")) plain in
    record {
      full = given;
      not_here = ==→ne name (lit ".") none_of.0;
      no_slash = absent (lit "/") name none_of.2;
      no_backslash = absent (lit "\\") name none_of.3;
      no_way_up = absent (lit "..") name none_of.4;
    }

pub check_name-IsPlain :
    (quote : Text → Text) (name : Text) → check_name quote name ≡ none → IsPlain name
unfolding check_name
check_name-IsPlain quote name h =
    let (given, rest) = guard-eq-none (is_empty name) (errors_new (lit "name is empty")) _ h in
    let (plain, done) =
      guard-eq-none (is_path name)
        (errors_new (lit "name " ++ quote name ++ lit " is not a plain file name")) none rest in
    is_path-IsPlain name (nonempty name given) plain
