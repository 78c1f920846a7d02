-- ===== src/Scenarios/Gate.antt =====
-- The state machine on concrete histories.
use alpr_li_dar_gate_automat.Base.{List, [], refl, true, ◌∷◌, ◌≡◌}
use alpr_li_dar_gate_automat.Machine.{init_closed, StateMachine, new, handle}
use alpr_li_dar_gate_automat.Machine.Types.{
  closed, faulted, command_open, command_close, limit_open_hit, Reason, Config, sliding,
}
use alpr_li_dar_gate_automat.Machine.Invariant.{Input, event, boot_closed, run, feed}
use alpr_li_dar_gate_automat.Machine.Graph.{Edge, handle-Edge}
use alpr_li_dar_gate_automat.Machine.Histories.{last_beam, closing_needs_clear_beam}

abbrev default_config : Config
default_config = record { gate_type = sliding; motor_timeout_ms = 30_000; auto_close_ms = 0 }

abbrev resting : StateMachine
resting = record { cfg = default_config; state = closed; reason = Reason.none; beam_clear = true }

abbrev broken : StateMachine
broken = record {
  cfg = default_config;
  state = faulted;
  reason = Reason.motor_timeout;
  beam_clear = true;
}

-- Opened and on the way back.
abbrev returning : List Input
returning = boot_closed ∷ event command_open ∷ event limit_open_hit ∷ event command_close ∷ []

closing_needs_clear_beam_example : last_beam true returning ≡ true
unfolding run feed new handle init_closed
closing_needs_clear_beam_example = closing_needs_clear_beam default_config returning refl

handle-Edge_example : Edge closed command_open (handle resting command_open).0.state
unfolding handle
handle-Edge_example = handle-Edge resting command_open refl
