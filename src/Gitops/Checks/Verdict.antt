-- ===== src/Gitops/Checks/Verdict.antt =====
-- What summarizeChecks decides (internal/gitops/github.go).
use mathlib.Core.Path.{subst}
use snowdeploy.Base.{
  Text, ◌≡◌, ◌≢◌, refl, sym, ◌∙◌, inl, inr, All, Bool, true, false, List, [], ◌∷◌, ◌++◌, Option,
  none, some, ◌↔◌,
}
use snowdeploy.Gitops.Checks.{CheckRun, CheckRuns, Summary, summarize_reported, summarize_checks}
use snowdeploy.Gitops.Checks.Runs.{
  IsCompleted, IsGreen, Passes, FirstNotGreen, Fails, Waits, IsSummary, reported-IsSummary,
}

All-IsGreen :
    (green others : List CheckRun) (run : CheckRun)
    → All IsGreen (green ++ run ∷ others)
    → IsGreen run
All-IsGreen [] others run h = h.0
All-IsGreen (g ∷ green) others run h = All-IsGreen green others run h.1

unsplit :
    {P : CheckRun → Type 0} (runs : List CheckRun)
    → FirstNotGreen P runs
    → ((run : CheckRun) → P run → ¬ (IsGreen run))
    → ¬ (All IsGreen runs)
unsplit runs f never all = never f.run f.is (
    All-IsGreen f.green f.others f.run (subst (λ (rs : List CheckRun). All IsGreen rs) f.split all))

Waits-ne-Passes : (r : Option CheckRuns) → Waits r → ¬ (Passes r)
Waits-ne-Passes none w p = p
Waits-ne-Passes (some r) (inl z) p = p.0 z
Waits-ne-Passes (some r) (inr (inl e)) p = p.1 e
Waits-ne-Passes (some r) (inr (inr f)) p = unsplit r.runs f (λ run b g. b g.0) p.2

-- The verdict, in terms of the runs alone.
pub record IsVerdict (r : Option CheckRuns) (s : Summary) : Type 0 where
  pub says : IsSummary r s.done s.passed
  pub passes_iff : ((s.done ≡ true) × (s.passed ≡ true)) ↔ Passes r

summary-passes :
    (r : Option CheckRuns) (done passed : Bool)
    → IsSummary r done passed
    → ((done ≡ true) × (passed ≡ true)) ↔ Passes r
summary-passes r true true h = (λ e. h, λ p. (refl, refl))
summary-passes none true false h = absurd h
summary-passes (some r) true false h =
    (λ e. cc (e.1), λ p. absurd (unsplit r.runs h.1 (λ run b g. b.1 g.1) p.2))
summary-passes r false true h = absurd h
summary-passes none false false h = (λ e. cc (e.0), λ p. absurd p)
summary-passes (some r) false false h = (λ e. cc (e.0), λ p. absurd (Waits-ne-Passes (some r) h p))

-- summarizeChecks decides as the runs do: they pass if and only if there are some and each is
-- completed and acceptable; it reports a failure only if the first run that is not green is
-- completed and not acceptable, and waits only if that run is not completed, or there is no run.
pub summarize_checks-IsVerdict :
    (quote : Text → Text) (r : Option CheckRuns) → IsVerdict r (summarize_checks quote r)
unfolding summarize_checks
summarize_checks-IsVerdict quote none = record {
  says = tt;
  passes_iff = summary-passes none false false tt;
}
summarize_checks-IsVerdict quote (some r) =
    let says = reported-IsSummary quote r.total r.runs in
    record {
      says = says;
      passes_iff =
          summary-passes (some r) (summarize_reported quote r.total r.runs).done
            (summarize_reported quote r.total r.runs).passed says;
    }

first_same :
    (green greens others rest : List CheckRun) (run other : CheckRun)
    → green ++ run ∷ others ≡ greens ++ other ∷ rest
    → All IsGreen green
    → All IsGreen greens
    → ¬ (IsGreen run)
    → ¬ (IsGreen other)
    → run ≡ other
first_same [] [] others rest run other e a b p q = cc
first_same [] (g ∷ greens) others rest run other e a b p q =
    let h : g ≡ run = cc in absurd (p (subst IsGreen h b.0))
first_same (g ∷ green) [] others rest run other e a b p q =
    let h : g ≡ other = cc in absurd (q (subst IsGreen h a.0))
first_same (g ∷ green) (h ∷ greens) others rest run other e a b p q =
    first_same green greens others rest run other (cc) a.1 b.1 p q

Waits-ne-Fails : (r : Option CheckRuns) → Waits r → ¬ (Fails r)
Waits-ne-Fails none w f = f
Waits-ne-Fails (some r) (inl z) f = f.0 z
Waits-ne-Fails (some r) (inr (inl e)) (n, f) = append-ne f.green (sym e ∙ f.split)
  where
    append-ne : (gs : List CheckRun) → [] ≢ gs ++ f.run ∷ f.others
    append-ne [] h = cc
    append-ne (g ∷ gs) h = cc
Waits-ne-Fails (some r) (inr (inr w)) (n, f) = w.is (
    subst IsCompleted
      (first_same f.green w.green f.others w.others f.run w.run (sym f.split ∙ w.split) f.before
        w.before (λ g. f.is.1 g.1) (λ g. w.is g.0))
      f.is.0)

-- Where the runs say to wait, the summary does.
pub Waits-IsVerdict :
    (r : Option CheckRuns) (s : Summary) → IsVerdict r s → Waits r → s.done ≡ false
Waits-IsVerdict r s v w = of_flags s.done s.passed v.says v.passes_iff
  where
    of_flags :
        (done passed : Bool)
        → IsSummary r done passed
        → ((done ≡ true) × (passed ≡ true)) ↔ Passes r
        → done ≡ false
    of_flags false passed h iff = refl
    of_flags true false h iff = absurd (Waits-ne-Fails r w h)
    of_flags true true h iff = absurd (Waits-ne-Passes r w h)
