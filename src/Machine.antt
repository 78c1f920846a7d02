-- ===== src/Machine.antt =====
-- firmware/components/gate_state_machine: the pure state machine of the gate.
-- `handle` takes the machine and an event to the new machine and its outputs; the children prove.
use alpr_li_dar_gate_automat.Base.{
  ℕ, ◌++◌, ◌≡◌, Bool, true, false, List, [], ◌∷◌, length, ltb, if◌then◌else◌, not, ◌&&◌,
}
pub mod Types
pub mod Invariant
pub mod Graph
pub mod Histories
pub mod Names
use Types.{
  State, initializing, closed, opening, opened, closing, stopped_open, stopped_close, faulted,
  Event, command_open, command_close, command_stop, limit_open_hit, limit_closed_hit,
  safety_beam_tripped, safety_beam_cleared, fault_cleared, Action, Reason, Config, Outputs,
}

-- The object of class `StateMachine`.
pub record StateMachine : Type 0 where
  pub cfg : Config
  pub state : State
  pub reason : Reason
  pub beam_clear : Bool

-- The constructor.
unfoldable pub new : Config → StateMachine
new cfg = record { cfg = cfg; state = initializing; reason = Reason.none; beam_clear = true }

-- The first `count` entries of the array are the list; a push onto a full array is dropped.
abbrev pub max_actions_per_step : ℕ
max_actions_per_step = 3

push : Outputs → Action → Outputs
push o a =
    if ltb (length o.actions) max_actions_per_step
    then record o { actions = o.actions ++ a ∷ [] }
    else o

-- `Outputs o{}; o.new_state = state_;`, as every handler begins.
quiet : StateMachine → Outputs
quiet m = record { actions = []; new_state = m.state; transitioned = false; reason = Reason.none }

-- `o.new_state = state_; o.transitioned = true;`, then the three pushes of most transitions.
announce : StateMachine → Reason → Action → Action → StateMachine × Outputs
unfolding push quiet
announce m r a b =
    let o = record (quiet m) { transitioned = true; reason = r } in
    (m, push (push (push o a) b) Action.emit_telemetry_state_changed)

unfoldable pub init_closed : StateMachine → StateMachine × Outputs
unfolding announce
init_closed m =
    announce (record m { state = closed; reason = Reason.none }) Reason.none Action.stop_motor
      Action.set_led_closed

unfoldable pub init_open : StateMachine → StateMachine × Outputs
unfolding announce
init_open m =
    announce (record m { state = opened; reason = Reason.none }) Reason.none Action.stop_motor
      Action.set_led_open

unfoldable pub init_unknown : StateMachine → StateMachine × Outputs
unfolding announce
init_unknown m =
    announce (record m { state = faulted; reason = Reason.limit_switch_conflict })
      Reason.limit_switch_conflict Action.stop_motor Action.set_led_fault

-- The beam latch, which every event passes first.
latch : StateMachine → Event → StateMachine
latch m safety_beam_tripped = record m { beam_clear = false }
latch m safety_beam_cleared = record m { beam_clear = true }
latch m _ = m

stop_as : StateMachine → State → Reason → StateMachine × Outputs
unfolding announce
stop_as m s r =
    announce (record m { state = s; reason = r }) r Action.stop_motor Action.set_led_stopped

on_command_stop : StateMachine → StateMachine × Outputs
unfolding stop_as quiet
on_command_stop m = elim m.state [
  | opening ↦ stop_as m stopped_open Reason.operator_stop
  | closing ↦ stop_as m stopped_close Reason.operator_stop
  | _ ↦ (m, quiet m)
]

on_fault_cleared : StateMachine → StateMachine × Outputs
unfolding quiet push
on_fault_cleared m = elim m.state [
  | faulted ↦
      let m' = record m { state = initializing; reason = Reason.none } in
      (m', push (record (quiet m') { transitioned = true }) Action.emit_telemetry_state_changed)
  | _ ↦ (m, quiet m)
]

time_out : StateMachine → StateMachine × Outputs
unfolding announce
time_out m =
    announce (record m { state = faulted; reason = Reason.motor_timeout }) Reason.motor_timeout
      Action.stop_motor Action.set_led_fault

on_motor_timeout : StateMachine → StateMachine × Outputs
unfolding time_out quiet
on_motor_timeout m = elim m.state [ opening ↦ time_out m | closing ↦ time_out m | _ ↦ (m, quiet m) ]

-- The cases of the `switch` on the state.
start_opening : StateMachine → Reason → StateMachine × Outputs
unfolding announce
start_opening m r =
    announce (record m { state = opening; reason = r }) Reason.none Action.drive_motor_open
      Action.set_led_opening

start_closing : StateMachine → Reason → StateMachine × Outputs
unfolding announce
start_closing m r =
    announce (record m { state = closing; reason = r }) Reason.none Action.drive_motor_close
      Action.set_led_closing

on_closed : StateMachine → Event → StateMachine × Outputs
unfolding start_opening quiet
on_closed m command_open = start_opening m m.reason
on_closed m _ = (m, quiet m)

on_opening : StateMachine → Event → StateMachine × Outputs
unfolding announce quiet
on_opening m limit_open_hit =
    announce (record m { state = opened }) Reason.none Action.stop_motor Action.set_led_open
on_opening m _ = (m, quiet m)

-- A close that the beam forbids is reported and changes nothing.
on_open : StateMachine → Event → StateMachine × Outputs
unfolding start_closing quiet push
on_open m command_close =
    if not m.beam_clear
    then (
      m,
      record (push (quiet m) Action.emit_telemetry_state_changed) {
        reason = Reason.safety_beam_obstacle;
      },
    )
    else start_closing m m.reason
on_open m _ = (m, quiet m)

on_closing : StateMachine → Event → StateMachine × Outputs
unfolding announce stop_as quiet
on_closing m limit_closed_hit =
    announce (record m { state = closed }) Reason.none Action.stop_motor Action.set_led_closed
on_closing m safety_beam_tripped = stop_as m stopped_close Reason.safety_beam_obstacle
on_closing m _ = (m, quiet m)

-- `StoppedOpen` and `StoppedClose` resume alike.
on_stopped : StateMachine → Event → StateMachine × Outputs
unfolding start_opening start_closing quiet
on_stopped m command_open = start_opening m Reason.none
on_stopped m command_close = if m.beam_clear then start_closing m Reason.none else (m, quiet m)
on_stopped m _ = (m, quiet m)

by_state : StateMachine → Event → StateMachine × Outputs
unfolding on_closed on_opening on_open on_closing on_stopped quiet
by_state m ev = elim m.state [
  | closed ↦ on_closed m ev
  | opening ↦ on_opening m ev
  | opened ↦ on_open m ev
  | closing ↦ on_closing m ev
  | stopped_open ↦ on_stopped m ev
  | stopped_close ↦ on_stopped m ev
  | faulted ↦ (m, quiet m)
  | initializing ↦ (m, quiet m)
]

unfoldable pub handle : StateMachine → Event → StateMachine × Outputs
unfolding latch on_command_stop on_fault_cleared on_motor_timeout by_state
handle m ev =
    let m' = latch m ev in
    elim ev [
      | command_stop ↦ on_command_stop m'
      | fault_cleared ↦ on_fault_cleared m'
      | Event.motor_timeout ↦ on_motor_timeout m'
      | other ↦ by_state m' other
    ]
