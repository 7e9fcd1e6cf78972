-- ===== src/Deploy/Outcome/Traces.antt =====
-- A run in a world, and how the protocol's facts reach each step of its trace.
use snowdeploy.Base.{ℕ, suc, Bool, [], ◌∷◌, ◌++◌, if◌then◌else◌}
use snowdeploy.Effect.{Call, RunRequest}
use snowdeploy.Effect.Logic.{Protocol}
use snowdeploy.Effect.Run.{World, Trace, step, execute, Keeps, final, execute-Keeps}
use snowdeploy.Deploy.Engine.{Options}
use snowdeploy.Deploy.Run.{run}
use snowdeploy.Deploy.Protocol.{IsSettled, started}
use snowdeploy.Deploy.Keeps.Plumbing.{protocol}
use snowdeploy.Deploy.Keeps.Run.{run-Wp}

-- The trace of one run.
abbrev pub run_trace : (w : World) → Options → RunRequest → w.State → Trace
run_trace w o req s = (execute w (run o req) s).2

-- In any world a run makes only calls that its protocol allows, and ends settled: with one receipt,
-- and no lock held.
pub run-Keeps :
    (w : World) (o : Options) (req : RunRequest) (s : w.State)
    → Keeps (protocol o req) (started req.new_digest) (run_trace w o req s)
      × IsSettled (final (protocol o req) (started req.new_digest) (run_trace w o req s))
run-Keeps w o req s =
    execute-Keeps (protocol o req) w (run o req) (λ _ g. IsSettled g) (started req.new_digest) s
      (run-Wp o req)

-- How often a trace makes a call of some kind.
abbrev pub calls : (Call → Bool) → Trace → ℕ
calls p [] = 0
calls p (step c a ∷ t) = let rest = calls p t in if p c then suc rest else rest

module _ (P : Protocol) where
  pub Keeps-append :
      (g : P.Watch) (t u : Trace) → Keeps P g (t ++ u) → Keeps P g t × Keeps P (final P g t) u
  Keeps-append g [] u k = (tt, k)
  Keeps-append g (step c a ∷ t) u k =
      let (before, behind) = Keeps-append (P.after g c a) t u k.1 in ((k.0, before), behind)
