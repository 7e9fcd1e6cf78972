-- ===== src/Deploy/Rewrite.antt =====
-- setDigest (internal/deploy/engine.go) replaces the one occurrence and nothing else.
use snowdeploy.Base.{
  Text, append-nil, sym, ◌≡◌, ◌≢◌, refl, ap, eqb, has_prefix, drop_prefix, count, count_from, [],
  ◌∷◌, ◌++◌, Result, ok, err, arith, Bool-cases, inl, inr,
}
use snowdeploy.Occurs.{has_prefix-split}
use snowdeploy.Deploy.Digest.{replace_first, set_digest}

-- Where the old text occurs, the first occurrence is replaced and the text around it kept.
replace_first-split :
    (old new raw : Text)
    → count raw old ≢ 0
    → (before : Text) × (behind : Text) × (raw ≡ before ++ old ++ behind)
      × (replace_first old new raw ≡ before ++ new ++ behind)
unfolding replace_first count count_from drop_prefix
replace_first-split [] new [] h = ([], [], refl, sym (append-nil new))
replace_first-split [] new (c ∷ s) h = ([], c ∷ s, refl, refl)
replace_first-split (d ∷ old) new [] h = absurd (h refl)
replace_first-split (d ∷ old) new (c ∷ s) h = elim (Bool-cases (has_prefix (c ∷ s) (d ∷ old))) [
  | inl here ↦ ([], drop_prefix (c ∷ s) (d ∷ old), has_prefix-split (c ∷ s) (d ∷ old) here, rw here)
  | inr later ↦
      let (before, behind, same, made) = replace_first-split (d ∷ old) new s (rw later at h) in
      (c ∷ before, behind, ap (λ (t : Text). c ∷ t) same, rw later (ap (λ (t : Text). c ∷ t) made))
]

-- The result of a rewrite: it succeeds exactly if the old digest occurs once, and then it is the
-- manifest with that occurrence replaced and every other character kept.
abbrev pub IsRewrite : Text → Text → Text → Result Text → Type 0
IsRewrite raw old new (ok out) =
    (count raw old ≡ 1)
    × ((before : Text) × (behind : Text) × (raw ≡ before ++ old ++ behind)
        × (out ≡ before ++ new ++ behind))
IsRewrite raw old new (err e) = count raw old ≢ 1

-- setDigest gives the bytes with the one occurrence of the old digest replaced and all else as it
-- was, if the old digest occurs exactly once, and an error otherwise.
pub set_digest-rewrites : (raw old new : Text) → IsRewrite raw old new (set_digest raw old new)
unfolding set_digest
set_digest-rewrites raw old new = elim (Bool-cases (eqb (count raw old) 1)) [
  | inl once ↦
      let one : count raw old ≡ 1 = ground arith in
      rw once (one, replace_first-split old new raw (λ z. ground arith))
  | inr other ↦ rw other (λ one. ground arith)
]
