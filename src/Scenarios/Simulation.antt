-- ===== src/Scenarios/Simulation.antt =====
-- The virtual gate on concrete calls.
use alpr_li_dar_gate_automat.Simulation.VirtualGate.Redundant.{issue-HasFailed, HasFailed}
use alpr_li_dar_gate_automat.Simulation.VirtualGate.Invariant.{IsValid}
use alpr_li_dar_gate_automat.Rpc.Tracker
use alpr_li_dar_gate_automat.Simulation.VirtualGate.Travel.{issue-HasOpened, advance_all, HasOpened}
use alpr_li_dar_gate_automat.Rpc.Tracker.Verdicts.{live_id}
use alpr_li_dar_gate_automat.Machine.Types.{opened, closed, State}
use alpr_li_dar_gate_automat.Base.{List, [], arith, refl, true, ℕ, ◌++◌, ◌∷◌, ◌≡◌}
use alpr_li_dar_gate_automat.Simulation.VirtualGate.{
  issue, advance, VirtualGate, SimConfig, close_gate, open_gate, power_on,
}
use alpr_li_dar_gate_automat.Simulation.VirtualGate.Calls.{
  run-power_on-IsValid, Call, boots, opens, advances, trips_beam, issues, drains, run,
}
use alpr_li_dar_gate_automat.Simulation.VirtualGate.Answers.{answered, issued, answered_lem}
use alpr_li_dar_gate_automat.Simulation.VirtualGate.Acks.{accounted}

abbrev slow_gate : SimConfig
slow_gate = record {
  travel_ms = 8_000;
  motor_timeout_ms = 10_000;
  auto_close_ms = 5_000;
  reverse_on_beam = true;
  command_deadline_ms = 40_000;
}

abbrev blocked_halfway : List Call
blocked_halfway = boots ∷ opens ∷ advances 8_000 ∷ advances 5_000 ∷ advances 1_000 ∷ trips_beam ∷ []

-- A gate in a state, at a position.
abbrev gate_at : State → ℕ → VirtualGate
gate_at s position = record (power_on slow_gate) {
  machine = record (power_on slow_gate).machine { state = s };
  position_ms = position;
}

run-power_on-IsValid_example : IsValid (run (power_on slow_gate) blocked_halfway)
run-power_on-IsValid_example = run-power_on-IsValid slow_gate blocked_halfway (omega arith)

abbrev superseded_calls : List Call
superseded_calls =
    boots
    ∷ issues (b'a' ∷ []) open_gate
    ∷ advances 100
    ∷ issues (b'b' ∷ []) close_gate
    ∷ drains
    ∷ []

answered_lem_example :
    answered (power_on slow_gate) superseded_calls
      ++ live_id (run (power_on slow_gate) superseded_calls).tracker
    ≡ accounted (power_on slow_gate) ++ issued superseded_calls
answered_lem_example = answered_lem (power_on slow_gate) superseded_calls

issue-HasOpened_example : HasOpened (gate_at closed 0) (b'a' ∷ []) (
    advance
      (advance_all (issue (gate_at closed 0) (b'a' ∷ []) open_gate) (3_000 ∷ 4_000 ∷ []))
      2_000)
unfolding power_on Tracker.new
issue-HasOpened_example =
    issue-HasOpened (gate_at closed 0) (b'a' ∷ []) (3_000 ∷ 4_000 ∷ []) 2_000 refl refl
      (omega arith) (omega arith) (omega arith) (omega arith) (omega arith)

issue-HasFailed_example : HasFailed (gate_at opened 8_000) (b'a' ∷ []) (
    advance (advance_all (issue (gate_at opened 8_000) (b'a' ∷ []) open_gate) (20_000 ∷ [])) 20_000)
unfolding power_on Tracker.new
issue-HasFailed_example =
    issue-HasFailed (gate_at opened 8_000) (b'a' ∷ []) (20_000 ∷ []) 20_000
      (record { stands = refl; off = (refl, refl); no_watchdog = refl; no_countdown = refl }) refl
      (omega arith) (omega arith) (omega arith) (omega arith)
