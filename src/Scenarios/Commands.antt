-- ===== src/Scenarios/Commands.antt =====
-- The command tracker on concrete calls.
use alpr_li_dar_gate_automat.Base.{List, [], false, true, ◌++◌, ◌∷◌, ◌≡◌}
use alpr_li_dar_gate_automat.Machine.Types.{opened, closed, opening, Reason}
use alpr_li_dar_gate_automat.Rpc.Tracker.{CommandTracker}
use alpr_li_dar_gate_automat.Rpc.Tracker.Verdicts.{
  Call, arms, hears, run, acknowledged, commanded, live_id, run_balance,
}

abbrev idle : CommandTracker
idle = record { id = []; terminal_ok = closed; deadline_ms = 0; armed = false }

abbrev waiting : CommandTracker
waiting = record { id = b'a' ∷ []; terminal_ok = opened; deadline_ms = 5_000; armed = true }

-- The second command supersedes the first and is completed.
abbrev two_commands : List Call
two_commands =
    arms (b'a' ∷ []) opened 5_000
    ∷ hears opening Reason.none true
    ∷ arms (b'b' ∷ []) closed 9_000
    ∷ hears closed Reason.none true
    ∷ []

run_balance_example :
    acknowledged idle two_commands ++ live_id (run idle two_commands)
    ≡ (b'a' ∷ []) ∷ (b'b' ∷ []) ∷ []
unfolding commanded
run_balance_example = run_balance idle two_commands

-- The 32-bit clock wraps between arming and deadline.
