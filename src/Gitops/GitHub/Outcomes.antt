-- ===== src/Gitops/GitHub/Outcomes.antt =====
-- When Merge, UpdateBranch and ClosePR succeed (internal/gitops/github.go).
use mathlib.Core.Path.{subst}
use snowdeploy.Base.{
  ℕ, Text, lit, ◌≡◌, refl, sym, ◌↔◌, ◌⊎◌, inl, inr, is_empty, true, [], ◌∷◌, Option, none, some,
  Error, Result, ok, err, Bool-cases, if◌then◌else◌,
}
use snowdeploy.Script.{Script, ret, ◌>>=◌, query, run}
use snowdeploy.Gitops.GitHub.{ApiError, MergeResult, Query, github, GitHubAppConfig}
use snowdeploy.Gitops.GitHub.Refusals.{is_current}
use snowdeploy.Gitops.GitHub.Settle.{
  updated, with_client, update_branch, merged, merge_over, merge, close, commented, close_pr,
}
use snowdeploy.Gitops.GitHub.Connected.{
  Replies, IsCurrent, SucceedsIff, succeeds_iff, is_current_iff, ok-if, same_ok,
}

module _ (lower : ℕ → ℕ) (a : GitHubAppConfig) (n : ℕ) (replies : Replies) where
  merged_iff :
      (r : Result MergeResult) (sha : Text)
      → (merged a n r ≡ ok sha)
        ↔ ((m : MergeResult) × (r ≡ ok m) × (m.merged ≡ true) × (m.sha ≡ sha))
  unfolding merged
  merged_iff (err e) sha = (λ h. cc, λ h. cc (h.1))
  merged_iff (ok m) sha =
      let iff = ok-if m.merged m.sha sha _ in
      (
        λ h. (m, refl, (iff.0 h).0, (iff.0 h).1),
        λ h. iff.1 (
            subst (λ (r : MergeResult). (r.merged ≡ true) × (r.sha ≡ sha)) (sym (same_ok m h.0 h.1))
              (h.2, h.3)),
      )

  updated_iff : (o : Option ApiError) → (updated lower n o ≡ none) ↔ IsCurrent lower o
  unfolding updated
  updated_iff none = (λ h. tt, λ h. refl)
  updated_iff (some e) = elim (Bool-cases (is_current lower e.kind)) [
    | inl current ↦ rw current (λ h. (is_current_iff lower e.kind).0 current, λ h. refl)
    | inr failing ↦ rw failing (λ h. cc, λ h. cc ((is_current_iff lower e.kind).1 h))
  ]

  closes_after :
      (o p : Option Error)
      → replies (Query.edit_pr n (lit "closed")) ≡ p
      → (run replies (commented a n o) ≡ none) ↔ ((o ≡ none) × (p ≡ none))
  unfolding commented close
  closes_after (some e) p h = (λ k. cc, λ k. cc (k.0))
  closes_after none none h = (λ k. (refl, refl), λ k. rw h refl)
  closes_after none (some e) h = (λ k. cc (rw h at k), λ k. cc (k.1))

  commenting : Text → Script github (Option Error)
  unfolding commented close
  commenting comment =
      if is_empty comment
      then close a n
      else (query (Query.create_comment n comment) >>= commented a n)

  commenting_iff :
      (comment : Text)
      → (run replies (commenting comment) ≡ none) ↔ (
          ((comment ≡ []) ⊎ (replies (Query.create_comment n comment) ≡ none))
          × (replies (Query.edit_pr n (lit "closed")) ≡ none))
  unfolding commenting commented close
  commenting_iff [] =
      let iff = closes_after none (replies (Query.edit_pr n (lit "closed"))) refl in
      (λ h. (inl refl, (iff.0 h).1), λ h. iff.1 (refl, h.1))
  commenting_iff (c ∷ s) =
      let iff =
        closes_after (replies (Query.create_comment n (c ∷ s)))
          (replies (Query.edit_pr n (lit "closed"))) refl in
      (λ h. (inr (iff.0 h).0, (iff.0 h).1), λ h. back iff h)
    where
      back :
          (run replies (commented a n (replies (Query.create_comment n (c ∷ s)))) ≡ none) ↔ (
            (replies (Query.create_comment n (c ∷ s)) ≡ none)
            × (replies (Query.edit_pr n (lit "closed")) ≡ none))
          → (((c ∷ s) ≡ []) ⊎ (replies (Query.create_comment n (c ∷ s)) ≡ none))
            × (replies (Query.edit_pr n (lit "closed")) ≡ none)
          → run replies (commented a n (replies (Query.create_comment n (c ∷ s)))) ≡ none
      back iff (inl e, k) = cc
      back iff (inr e, k) = iff.1 (e, k)

  -- Merge succeeds exactly if the client is connected and GitHub merged, with that commit;
  -- UpdateBranch, if it is connected and the branch is or will be current; ClosePR, if it is
  -- connected, the comment was stored or is empty, and the proposal was closed behind it.
  pub settle-SucceedsIff : SucceedsIff lower a n replies
  unfolding merge update_branch close_pr commenting commented close
  settle-SucceedsIff = record {
    merges = λ sha.
        succeeds_iff a replies (λ r. r ≡ ok sha) (merge_over a n) (λ e h. cc)
          (merged_iff (replies (Query.merge_pr n (lit "squash"))) sha);
    updates =
        succeeds_iff a replies (λ o. o ≡ none)
          (with_client a n
            (do answer ← query (Query.update_branch n); ret (updated lower n answer)))
          (λ e h. cc) (updated_iff (replies (Query.update_branch n)));
    closes = λ comment.
        succeeds_iff a replies (λ o. o ≡ none) (with_client a n (commenting comment)) (λ e h. cc)
          (commenting_iff comment);
  }
