-- ===== src/Api/Reads/Resolved.antt =====
-- Which digests are annotated, and with what (internal/api/api.go).
use mathlib.Core.Path.{subst}
use snowdeploy.Base.{
  Text, ◌≡◌, refl, ap, sym, ◌∙◌, inl, inr, ◌==◌, ==→eq, is_empty, any, Bool, true, false, not, ◌||◌,
  ◌&&◌, List, [], ◌∷◌, Option, none, some, Bool-cases, if◌then◌else◌, arith,
}
use snowdeploy.Dict.{Dict, lookup, lookup-put, lookup-put_other}
use snowdeploy.Revision.{Revision}
use snowdeploy.Api.Reads.{Sources, noted, resolve_each, found, resolve_by, resolve_revisions}

abbrev pub is_in : Text → List Text → Bool
is_in k ds = any (λ d. d == k) ds

-- What is known of a digest among those that are asked for.
abbrev pub answer_for : (Text → Option Revision) → Bool → Text → Option Revision
answer_for lookup_of asked k = if asked then lookup_of k else none

-- What was seen, or is asked for behind it.
abbrev pub is_asked : Text → List Text → List Text → Bool
is_asked k seen ds = is_in k seen || (is_in k ds && not (is_empty k))

or_false : (a : Bool) → a || false ≡ a
or_false a = ground arith

module _ (lookup_of : Text → Option Revision) where
  -- What was found is what is known of the digests seen.
  abbrev IsFound : List Text → Dict Revision → Type 0
  IsFound seen out = (k : Text) → lookup k out ≡ answer_for lookup_of (is_in k seen) k

  noted-IsFound :
      (digest : Text) (seen : List Text) (out : Dict Revision)
      → is_in digest seen ≡ false
      → IsFound seen out
      → IsFound (digest ∷ seen) (noted digest (lookup_of digest) out)
  noted-IsFound digest seen out fresh f k = elim (Bool-cases (digest == k)) [
    | inl same ↦ rw (same, sym (==→eq digest k same)) (of_answer (lookup_of digest) refl)
    | inr other ↦ rw other (of_other (lookup_of digest) other)
  ]
    where
      of_answer :
          (o : Option Revision)
          → lookup_of digest ≡ o
          → lookup digest (noted digest o out) ≡ lookup_of digest
      of_answer none h = f digest ∙ ap (λ (b : Bool). answer_for lookup_of b digest) fresh ∙ sym h
      of_answer (some rev) h = lookup-put digest rev out ∙ sym h

      of_other :
          (o : Option Revision)
          → (digest == k) ≡ false
          → lookup k (noted digest o out) ≡ answer_for lookup_of (is_in k seen) k
      of_other none other = f k
      of_other (some rev) other = lookup-put_other k digest rev out other ∙ f k

  asked_skipped :
      (k digest : Text) (seen ds : List Text)
      → is_empty digest || is_in digest seen ≡ true
      → is_asked k seen ds ≡ is_asked k seen (digest ∷ ds)
  asked_skipped k digest seen ds skip = elim (Bool-cases (digest == k)) [
    | inl same ↦
        let known : is_empty k || is_in k seen ≡ true =
          subst (λ (x : Text). is_empty x || is_in x seen ≡ true) (==→eq digest k same) skip in
        ground (arith, same, known)
    | inr other ↦ rw other refl
  ]

  asked_new :
      (k digest : Text) (seen ds : List Text)
      → is_empty digest ≡ false
      → is_asked k (digest ∷ seen) ds ≡ is_asked k seen (digest ∷ ds)
  asked_new k digest seen ds full = elim (Bool-cases (digest == k)) [
    | inl same ↦
        let named : is_empty k ≡ false =
          subst (λ (x : Text). is_empty x ≡ false) (==→eq digest k same) full in
        ground (arith, same, named)
    | inr other ↦ rw other refl
  ]

  resolve_each-IsFound :
      (ds seen : List Text) (out : Dict Revision)
      → IsFound seen out
      → (k : Text)
      → lookup k (resolve_each lookup_of seen out ds) ≡ answer_for lookup_of (is_asked k seen ds) k
  unfolding resolve_each
  resolve_each-IsFound [] seen out f k =
      f k ∙ ap (λ (b : Bool). answer_for lookup_of b k) (sym (or_false (is_in k seen)))
  resolve_each-IsFound (digest ∷ ds) seen out f k =
      elim (Bool-cases (is_empty digest || is_in digest seen)) [
        | inl skip ↦ rw skip (
            resolve_each-IsFound ds seen out f k
            ∙ ap (λ (b : Bool). answer_for lookup_of b k) (asked_skipped k digest seen ds skip))
        | inr new ↦
            let full : is_empty digest ≡ false = ground (arith, new) in
            let fresh : is_in digest seen ≡ false = ground (arith, new) in
            rw new (
              resolve_each-IsFound ds (digest ∷ seen) (noted digest (lookup_of digest) out)
                (noted-IsFound digest seen out fresh f) k
              ∙ ap (λ (b : Bool). answer_for lookup_of b k) (asked_new k digest seen ds full))
      ]

-- The map that is answered; nil counts as empty.
abbrev pub revisions_in : Option (Dict Revision) → Dict Revision
revisions_in none = []
revisions_in (some out) = out

abbrev pub resolver : Option (Text → Text → Option Revision) → Text → Text → Option Revision
resolver none repository digest = none
resolver (some lookup_revision) repository digest = lookup_revision repository digest

found_same : (out : Dict Revision) → revisions_in (found out) ≡ out
found_same [] = refl
found_same (r ∷ rs) = refl

none_for : (b : Bool) (k : Text) → none ≡ answer_for (λ (d : Text). none) b k
none_for true k = refl
none_for false k = refl

-- The answer holds a digest exactly if it is asked for, is not empty, and the resolver knows its
-- revision; and then it holds that revision. Nothing is held without a resolver.
resolve_revisions-knows :
    (s : Sources) (repository : Text) (digests : List Text) (k : Text)
    → lookup k (revisions_in (resolve_revisions s repository digests))
      ≡ answer_for (resolver s.lookup_revision repository) (is_in k digests && not (is_empty k)) k
unfolding resolve_revisions lookup
resolve_revisions-knows s repository digests k = of_resolver s.lookup_revision
  where
    of_resolver :
        (o : Option (Text → Text → Option Revision))
        → lookup k (revisions_in (resolve_by o repository digests))
          ≡ answer_for (resolver o repository) (is_in k digests && not (is_empty k)) k
    of_resolver none = none_for (is_in k digests && not (is_empty k)) k
    of_resolver (some lookup_revision) =
        rw (found_same (resolve_each (lookup_revision repository) [] [] digests))
          (resolve_each-IsFound (lookup_revision repository) digests [] [] (λ d. refl) k)
