-- ===== src/Deploy/Outcome/Receipts.antt =====
-- One receipt for each run, last, and true.
use snowdeploy.Base.{ℕ, Text, ◌≡◌, Bool, true, false, some}
use snowdeploy.Journal.Defs.{State, is_terminal}
use snowdeploy.Effect.{Call}
use snowdeploy.Effect.Run.{Keeps}
use snowdeploy.Deploy.Engine.{Options}
use snowdeploy.Deploy.Protocol.{Watch, Justified}

abbrev pub is_finish : Call → Bool
is_finish (Call.finish id st detail) = true
is_finish _ = false

abbrev written : Bool → ℕ
written true = 1
written false = 0

module _ (o : Options) (id : ℕ) (service : Text) (conv : Bool) where
  -- A receipt that is written is terminal, and true of the host.
  abbrev Holds : Watch → Type 0
  Holds g =
      g.receipt ≡ true
      → (st : State) × (detail : Text) × (g.entry ≡ some (st, detail))
        × (is_terminal st ≡ true)
        × Justified o g st
