-- ===== src/Gitops/Checks/Runs.antt =====
-- Check runs, and what the loop of summarizeChecks makes of them (internal/gitops/github.go).
use snowdeploy.Base.{
  ℕ, zero, suc, Text, lit, ◌≡◌, ◌≢◌, refl, ap, ◌⊎◌, inl, inr, ◌==◌, ==→eq, ==→ne, All, Bool, true,
  false, ◌||◌, List, [], ◌∷◌, ◌++◌, Option, none, some, Bool-cases, arith,
}
use snowdeploy.Gitops.Checks.{
  CheckRun, CheckRuns, Summary, is_acceptable, judged, summarize_runs, summarize_reported,
}

abbrev pub IsCompleted : CheckRun → Type 0
IsCompleted run = run.status ≡ lit "completed"

abbrev pub IsAcceptable : CheckRun → Type 0
IsAcceptable run =
    (run.conclusion ≡ lit "success")
    ⊎ (run.conclusion ≡ lit "neutral")
    ⊎ (run.conclusion ≡ lit "skipped")

abbrev pub IsGreen : CheckRun → Type 0
IsGreen run = IsCompleted run × IsAcceptable run

-- There are runs, and every one of them is completed and acceptable.
abbrev pub Passes : Option CheckRuns → Type 0
Passes none = ⊥
Passes (some r) = (r.total ≢ 0) × (r.runs ≢ []) × All IsGreen r.runs

-- Behind green runs stands the first that is not, which is as described.
pub record FirstNotGreen (P : CheckRun → Type 0) (runs : List CheckRun) : Type 0 where
  pub green : List CheckRun
  pub run : CheckRun
  pub others : List CheckRun
  pub split : runs ≡ green ++ run ∷ others
  pub before : All IsGreen green
  pub is : P run

abbrev pub Fails : Option CheckRuns → Type 0
Fails none = ⊥
Fails (some r) =
    (r.total ≢ 0) × FirstNotGreen (λ run. IsCompleted run × ¬ (IsAcceptable run)) r.runs

abbrev pub Waits : Option CheckRuns → Type 0
Waits none = Unit
Waits (some r) = (r.total ≡ 0) ⊎ (r.runs ≡ []) ⊎ FirstNotGreen (λ run. ¬ (IsCompleted run)) r.runs

-- What a summary says of the runs.
abbrev pub IsSummary : Option CheckRuns → Bool → Bool → Type 0
IsSummary r true true = Passes r
IsSummary r true false = Fails r
IsSummary r false true = ⊥
IsSummary r false false = Waits r

pub acceptable : (run : CheckRun) → is_acceptable run.conclusion ≡ true → IsAcceptable run
acceptable run h = elim (Bool-cases (run.conclusion == lit "success")) [
  | inl s ↦ inl (==→eq _ (lit "success") s)
  | inr s ↦ elim (Bool-cases (run.conclusion == lit "neutral")) [
    | inl n ↦ inr (inl (==→eq _ (lit "neutral") n))
    | inr n ↦ inr (inr (==→eq _ (lit "skipped") (rw (s, n) at h)))
  ]
]

pub none_of_three : (a b c : Bool) → (a || b || c) ≡ false → (a ≡ false) × (b ≡ false) × (c ≡ false)
none_of_three a b c h = ground arith

pub unacceptable : (run : CheckRun) → is_acceptable run.conclusion ≡ false → ¬ (IsAcceptable run)
unacceptable run h accepted =
    let no_one =
      none_of_three (run.conclusion == lit "success") (run.conclusion == lit "neutral")
        (run.conclusion == lit "skipped") h in
    elim accepted [
      | inl e ↦ ==→ne run.conclusion (lit "success") no_one.0 e
      | inr (inl e) ↦ ==→ne run.conclusion (lit "neutral") no_one.1 e
      | inr (inr e) ↦ ==→ne run.conclusion (lit "skipped") no_one.2 e
    ]

-- A summary of runs, in terms of them alone.
abbrev pub Sums : List CheckRun → Bool → Bool → Type 0
Sums runs true true = All IsGreen runs
Sums runs true false = FirstNotGreen (λ run. IsCompleted run × ¬ (IsAcceptable run)) runs
Sums runs false true = ⊥
Sums runs false false = FirstNotGreen (λ run. ¬ (IsCompleted run)) runs

pub here :
    {P : CheckRun → Type 0} (run : CheckRun) (runs : List CheckRun)
    → P run
    → FirstNotGreen P (run ∷ runs)
here run runs p = record { green = []; run = run; others = runs; split = refl; before = tt; is = p }

pub behind :
    {P : CheckRun → Type 0} (run : CheckRun) (runs : List CheckRun)
    → IsGreen run
    → FirstNotGreen P runs
    → FirstNotGreen P (run ∷ runs)
behind run runs g f = record {
  green = run ∷ f.green;
  run = f.run;
  others = f.others;
  split = ap (λ (rs : List CheckRun). run ∷ rs) f.split;
  before = (g, f.before);
  is = f.is;
}

pub behind-Sums :
    (run : CheckRun) (runs : List CheckRun) (done passed : Bool)
    → IsGreen run
    → Sums runs done passed
    → Sums (run ∷ runs) done passed
behind-Sums run runs true true g s = (g, s)
behind-Sums run runs true false g s = behind run runs g s
behind-Sums run runs false false g s = behind run runs g s
behind-Sums run runs false true g s = s

module _ (quote : Text → Text) where
  pub judged-Sums :
      (run : CheckRun) (runs : List CheckRun) (s : Summary)
      → Sums runs s.done s.passed
      → Sums (run ∷ runs) (judged quote run s).done (judged quote run s).passed
  judged-Sums run runs s h = elim (Bool-cases (run.status == lit "completed")) [
    | inr pending ↦ rw pending (here run runs (==→ne run.status (lit "completed") pending))
    | inl completed ↦ elim (Bool-cases (is_acceptable run.conclusion)) [
      | inl fine ↦
          rw (completed, fine)
            (behind-Sums run runs s.done s.passed
              (==→eq run.status (lit "completed") completed, acceptable run fine) h)
      | inr red ↦
          rw (completed, red)
            (here run runs (==→eq run.status (lit "completed") completed, unacceptable run red))
    ]
  ]

  pub summarize_runs-Sums :
      (runs : List CheckRun)
      → Sums runs (summarize_runs quote runs).done (summarize_runs quote runs).passed
  unfolding summarize_runs
  summarize_runs-Sums [] = tt
  summarize_runs-Sums (run ∷ runs) =
      judged-Sums run runs (summarize_runs quote runs) (summarize_runs-Sums runs)

  pub reported-IsSummary :
      (total : ℕ) (runs : List CheckRun)
      → IsSummary
          (some (record { total = total; runs = runs }))
          (summarize_reported quote total runs).done
          (summarize_reported quote total runs).passed
  reported-IsSummary zero runs = inl refl
  reported-IsSummary (suc total) [] = inr (inl refl)
  reported-IsSummary (suc total) (run ∷ runs) =
      summary (summarize_runs quote (run ∷ runs)).done (summarize_runs quote (run ∷ runs)).passed
        (summarize_runs-Sums (run ∷ runs))
    where
      summary :
          (done passed : Bool)
          → Sums (run ∷ runs) done passed
          → IsSummary (some (record { total = suc total; runs = run ∷ runs })) done passed
      summary true true h = (λ e. omega arith, λ e. cc, h)
      summary true false h = (λ e. omega arith, h)
      summary false true h = h
      summary false false h = inr (inr h)
