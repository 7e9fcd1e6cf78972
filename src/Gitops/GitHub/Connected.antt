-- ===== src/Gitops/GitHub/Connected.antt =====
-- A client that could be built, and an update that GitHub takes (internal/gitops/github.go).
use mathlib.Core.Path.{subst}
use snowdeploy.Base.{
  ℕ, Text, lit, ◌≡◌, refl, sym, ap, ◌∙◌, ◌↔◌, ◌⊎◌, inl, inr, Bool, true, false, ◌&&◌, List, [],
  Option, none, some, Error, Result, ok, err, Bool-cases, map, if◌then◌else◌,
}
use snowdeploy.Occurs.{Occurs, contains-Occurs, Occurs-contains}
use snowdeploy.Script.{Script, ◌>>=◌, run, run-bind}
use snowdeploy.Gitops.GitHub.{
  Kind, accepted, other, response, ApiError, MergeResult, Query, Reply, github, GitHubAppConfig,
  transport, client, transport_keyed, transport_made, client_over,
}
use snowdeploy.Gitops.GitHub.Refusals.{is_unprocessable, is_unprocessable-422, says, is_current}
use snowdeploy.Gitops.GitHub.Settle.{update_branch, merge, close_pr}

abbrev pub Replies : Type 0
Replies = (q : Query) → Reply q

-- The key can be read, and the client be built with it.
abbrev pub IsConnected : GitHubAppConfig → Replies → Type 0
IsConnected a replies =
    (key : Text) × (replies (Query.read_key a.key_path) ≡ ok key)
    × (replies (Query.new_transport key) ≡ none)
    × (replies Query.new_client ≡ none)

-- An accepted update, or a 422 that says "no new commits": the branch is current, or will be.
abbrev pub IsCurrent : (ℕ → ℕ) → Option ApiError → Type 0
IsCurrent lower none = Unit
IsCurrent lower (some e) =
    (e.kind ≡ accepted)
    ⊎ ((message : Text) × (errors : List Text) × (e.kind ≡ response (some 422) message errors)
        × Occurs (lit "no new commits") (map lower message))

-- What each operation takes to succeed, whatever the client replies.
pub record SucceedsIff (lower : ℕ → ℕ) (a : GitHubAppConfig) (n : ℕ) (replies : Replies)
    : Type 0 where
  pub merges :
      (sha : Text)
      → (run replies (merge a n) ≡ ok sha) ↔ (
          IsConnected a replies
          × ((r : MergeResult) × (replies (Query.merge_pr n (lit "squash")) ≡ ok r)
              × (r.merged ≡ true)
              × (r.sha ≡ sha)))
  pub updates :
      (run replies (update_branch a n lower) ≡ none)
      ↔ (IsConnected a replies × IsCurrent lower (replies (Query.update_branch n)))
  pub closes :
      (comment : Text)
      → (run replies (close_pr a n comment) ≡ none) ↔ (
          IsConnected a replies
          × (((comment ≡ []) ⊎ (replies (Query.create_comment n comment) ≡ none))
              × (replies (Query.edit_pr n (lit "closed")) ≡ none)))

pub same_key : (k l : Text) → ok k ≡ ok l → k ≡ l
same_key k l h = cc

module _ (a : GitHubAppConfig) (replies : Replies) where
  -- The client's error is nil exactly if it is connected.
  pub client-IsConnected : (run replies (client a) ≡ none) ↔ IsConnected a replies
  unfolding client transport
  client-IsConnected = keyed (replies (Query.read_key a.key_path)) refl
    where
      made :
          (key : Text) (o p : Option Error)
          → replies (Query.read_key a.key_path) ≡ ok key
          → replies (Query.new_transport key) ≡ o
          → replies Query.new_client ≡ p
          → (run replies (client_over a (transport_made a o)) ≡ none) ↔ IsConnected a replies
      made key none none k h c = (λ g. (key, k, h, c), λ g. rw c refl)
      made key none (some e) k h c = (λ g. cc (rw c at g), λ g. cc (g.3))
      made key (some e) p k h c = (
        λ g. cc,
        λ g. cc (
            subst (λ (x : Text). replies (Query.new_transport x) ≡ none)
              (same_key g.0 key (sym g.1 ∙ k)) g.2),
      )

      keyed :
          (r : Result Text)
          → replies (Query.read_key a.key_path) ≡ r
          → (run replies (transport_keyed a r >>= client_over a) ≡ none) ↔ IsConnected a replies
      keyed (err e) k = (λ h. cc, λ h. cc (h.1))
      keyed (ok key) k =
          made key (replies (Query.new_transport key)) (replies Query.new_client) k refl refl

  -- An operation succeeds on a client that could be built, and as its rest does.
  pub succeeds_iff :
      {B P : Type 0} (Succeeds : B → Type 0) (rest : Option Error → Script github B)
      → ((e : Error) → ¬ (Succeeds (run replies (rest (some e)))))
      → Succeeds (run replies (rest none)) ↔ P
      → Succeeds (run replies (client a >>= rest)) ↔ (IsConnected a replies × P)
  succeeds_iff {B} {P} Succeeds rest fails iff =
      rw (run-bind replies (client a) rest) (of_client (run replies (client a)) client-IsConnected)
    where
      of_client :
          (o : Option Error)
          → (o ≡ none) ↔ IsConnected a replies
          → Succeeds (run replies (rest o)) ↔ (IsConnected a replies × P)
      of_client none c = (λ h. (c.0 refl, iff.0 h), λ h. iff.1 h.1)
      of_client (some e) c = (λ h. absurd (fails e h), λ h. cc (c.1 h.0))

pub is_current_iff :
    (lower : ℕ → ℕ) (k : Kind)
    → (is_current lower k ≡ true) ↔ (
        (k ≡ accepted)
        ⊎ ((message : Text) × (errors : List Text) × (k ≡ response (some 422) message errors)
            × Occurs (lit "no new commits") (map lower message)))
unfolding is_current
is_current_iff lower accepted = (λ h. inl refl, λ h. refl)
is_current_iff lower other = (λ h. cc, never)
  where
    never :
        (other ≡ accepted)
          ⊎ ((message : Text) × (errors : List Text) × (other ≡ response (some 422) message errors)
              × Occurs (lit "no new commits") (map lower message))
        → false ≡ true
    never (inl h) = cc
    never (inr (m, es, h, o)) = cc
is_current_iff lower (response status message errors) = (there, back)
  where
    there :
        (is_unprocessable status && says lower (lit "no new commits") message) ≡ true
        → (response status message errors ≡ accepted)
          ⊎ ((m : Text) × (es : List Text) × (response status message errors
                ≡ response (some 422) m es)
              × Occurs (lit "no new commits") (map lower m))
    there h = elim (Bool-cases (is_unprocessable status)) [
      | inl u ↦ inr (
        message,
        errors,
        ap (λ (st : Option ℕ). response st message errors) (is_unprocessable-422 status u),
        contains-Occurs (map lower message) (lit "no new commits") (rw u at h),
      )
      | inr differs ↦ cc (rw differs at h)
    ]

    back :
        (response status message errors ≡ accepted)
          ⊎ ((m : Text) × (es : List Text) × (response status message errors
                ≡ response (some 422) m es)
              × Occurs (lit "no new commits") (map lower m))
        → (is_unprocessable status && says lower (lit "no new commits") message) ≡ true
    back (inl h) = cc
    back (inr (m, es, h, o)) =
        let e : status ≡ some 422 = cc in
        let f : message ≡ m = cc in
        rw e (rw f (Occurs-contains (lit "no new commits") (map lower m) o))

pub ok-if :
    (b : Bool) (t s : Text) (e : Error)
    → ((if b then ok t else err e) ≡ ok s) ↔ ((b ≡ true) × (t ≡ s))
ok-if true t s e = (λ h. (refl, same h), λ h. ap ok h.1)
  where
    same : ok t ≡ ok s → t ≡ s
    same h = cc
ok-if false t s e = (λ h. cc, λ h. cc (h.0))

pub same_ok : (m r : MergeResult) → ok m ≡ ok r → m ≡ r
same_ok m r h = cc
