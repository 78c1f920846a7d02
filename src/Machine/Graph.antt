-- ===== src/Machine/Graph.antt =====
-- The transition diagram of the gate, and what `handle` tells its caller.
use alpr_li_dar_gate_automat.Base.{◌≡◌, ◌≢◌, ◌⊎◌, true, false, List, [], ◌∷◌, arith}
use alpr_li_dar_gate_automat.Machine.{StateMachine, handle}
use alpr_li_dar_gate_automat.Machine.Types.{
  State, initializing, closed, opening, opened, closing, stopped_open, stopped_close, faulted,
  Event, command_open, command_close, command_stop, limit_open_hit, limit_closed_hit,
  safety_beam_tripped, fault_cleared, Action, Reason, Outputs,
}
use alpr_li_dar_gate_automat.Machine.Invariant.{IsValid}

pub data IsMoving : State → Type 0 where
  opening_moves : IsMoving opening
  closing_moves : IsMoving closing

pub data IsResting : State → Type 0 where
  closed_rests : IsResting closed
  stopped_open_rests : IsResting stopped_open
  stopped_close_rests : IsResting stopped_close

-- The legal transitions, each with its event.
pub data Edge : State → Event → State → Type 0 where
  open_up : {s : State} → IsResting s → Edge s command_open opening
  arrive_open : Edge opening limit_open_hit opened
  close_down : Edge opened command_close closing
  resume_close_open : Edge stopped_open command_close closing
  resume_close_close : Edge stopped_close command_close closing
  arrive_closed : Edge closing limit_closed_hit closed
  obstruct : Edge closing safety_beam_tripped stopped_close
  halt_opening : Edge opening command_stop stopped_open
  halt_closing : Edge closing command_stop stopped_close
  time_out : {s : State} → IsMoving s → Edge s Event.motor_timeout faulted
  recover : Edge faulted fault_cleared initializing

ruleset edges = (
  open_up, arrive_open, close_down, resume_close_open, resume_close_close, arrive_closed, obstruct,
  halt_opening, halt_closing, time_out, recover,
)

ruleset places =
    (opening_moves, closing_moves, closed_rests, stopped_open_rests, stopped_close_rests)

-- Every transition that `handle` reports is an edge of the diagram.
pub handle-Edge :
    (m : StateMachine) (ev : Event)
    → (handle m ev).1.transitioned ≡ true
    → Edge m.state ev (handle m ev).0.state
unfolding handle
handle-Edge m ev h = grind (arith, edges, places)

-- While the beam is clear every edge of the diagram is taken, and reported.
pub Edge-handle :
    {s t : State} {ev : Event} (m : StateMachine)
    → Edge s ev t
    → m.state ≡ s
    → m.beam_clear ≡ true
    → ((handle m ev).0.state ≡ t) × ((handle m ev).1.transitioned ≡ true)
unfolding handle
Edge-handle m (open_up closed_rests) e b = ground arith
Edge-handle m (open_up stopped_open_rests) e b = ground arith
Edge-handle m (open_up stopped_close_rests) e b = ground arith
Edge-handle m (time_out opening_moves) e b = ground arith
Edge-handle m (time_out closing_moves) e b = ground arith
Edge-handle m arrive_open e b = ground arith
Edge-handle m close_down e b = ground arith
Edge-handle m resume_close_open e b = ground arith
Edge-handle m resume_close_close e b = ground arith
Edge-handle m arrive_closed e b = ground arith
Edge-handle m obstruct e b = ground arith
Edge-handle m halt_opening e b = ground arith
Edge-handle m halt_closing e b = ground arith
Edge-handle m recover e b = ground arith

-- The actions that announce the entry into each state.
abbrev pub entry_actions : State → List Action
entry_actions initializing = Action.emit_telemetry_state_changed ∷ []
entry_actions closed =
    Action.stop_motor ∷ Action.set_led_closed ∷ Action.emit_telemetry_state_changed ∷ []
entry_actions opening =
    Action.drive_motor_open ∷ Action.set_led_opening ∷ Action.emit_telemetry_state_changed ∷ []
entry_actions opened =
    Action.stop_motor ∷ Action.set_led_open ∷ Action.emit_telemetry_state_changed ∷ []
entry_actions closing =
    Action.drive_motor_close ∷ Action.set_led_closing ∷ Action.emit_telemetry_state_changed ∷ []
entry_actions stopped_open =
    Action.stop_motor ∷ Action.set_led_stopped ∷ Action.emit_telemetry_state_changed ∷ []
entry_actions stopped_close =
    Action.stop_motor ∷ Action.set_led_stopped ∷ Action.emit_telemetry_state_changed ∷ []
entry_actions faulted =
    Action.stop_motor ∷ Action.set_led_fault ∷ Action.emit_telemetry_state_changed ∷ []

-- What the outputs `o` say when `handle` took the machine `m` to `m'`.
pub record IsReport (m m' : StateMachine) (o : Outputs) : Type 0 where
  pub names_state : o.new_state ≡ m'.state
  pub moved :
      o.transitioned ≡ true
      → (m'.state ≢ m.state) × (o.reason ≡ m'.reason) × (o.actions ≡ entry_actions m'.state)
  pub stayed :
      o.transitioned ≡ false
      → (m'.state ≡ m.state)
        × (m'.reason ≡ m.reason)
        × (((o.actions ≡ []) × (o.reason ≡ Reason.none))
            ⊎ ((o.actions ≡ Action.emit_telemetry_state_changed ∷ [])
                × (o.reason ≡ Reason.safety_beam_obstacle)
                × (m'.state ≡ opened)
                × (m'.beam_clear ≡ false)))

-- From a valid machine the outputs of `handle` are exact: a reported transition changes the state,
-- carries the machine's new reason and the actions that enter its new state; without one neither
-- state nor reason change, and nothing is asked of the drivers except that a close refused
-- by the beam in Open is sent to telemetry with its reason.
pub handle-IsReport :
    (m : StateMachine) (ev : Event) → IsValid m → IsReport m (handle m ev).0 (handle m ev).1
unfolding handle
handle-IsReport m ev v = ground arith
