-- ===== src/Deploy/Outcome/Host.antt =====
-- What a run does to the host.
use snowdeploy.Base.{ℕ, Text, Bool, [], ◌∷◌}
use snowdeploy.Journal.Defs.{is_converge}
use snowdeploy.Effect.{Call, RunRequest}
use snowdeploy.Effect.Run.{World, Trace, step, Keeps}
use snowdeploy.Deploy.Engine.{Options}
use snowdeploy.Deploy.Protocol.{Watch, IsUnitOf, run_protocol, RunAllowed, run_after}
use snowdeploy.Deploy.Outcome.Traces.{run_trace, run-Keeps}

abbrev Gated : Options → Call → Type 0
Gated o (Call.write_unit name u) = (d : Text) × (url : Text) × IsUnitOf o d (name, u, url)
Gated o _ = Unit

-- Every unit that the trace writes passed both gates: it is rendered from a manifest that is valid
-- under the limits, and the rendered text is free of what ValidateRendered refuses.
abbrev pub AllGated : Options → Trace → Type 0
AllGated o [] = Unit
AllGated o (step c a ∷ t) = Gated o c × AllGated o t

module _ (o : Options) (id : ℕ) (service : Text) (conv : Bool) where
  Gated-allowed : (g : Watch) (c : Call) → RunAllowed o id service conv g c → Gated o c
  Gated-allowed g (Call.write_unit name u) k = k.3
  Gated-allowed g _ k = tt

  Gated-Keeps : (g : Watch) (t : Trace) → Keeps (run_protocol o id service conv) g t → AllGated o t
  Gated-Keeps g [] k = tt
  Gated-Keeps g (step c a ∷ t) k =
      (Gated-allowed g c k.0, Gated-Keeps (run_after o id service conv g c a) t k.1)

-- In any world no run, restoring ones included, writes a unit that did not pass both gates.
pub run-gated :
    (w : World) (o : Options) (req : RunRequest) (s : w.State) → AllGated o (run_trace w o req s)
run-gated w o req s =
    Gated-Keeps o req.id req.service (is_converge req.action) _ _ (run-Keeps w o req s).0
