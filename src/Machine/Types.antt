-- ===== src/Machine/Types.antt =====
-- The enumerations and plain structs of state_machine.hpp.
use alpr_li_dar_gate_automat.Base.{ℕ, Bool, List}

-- `opened` is `Open`.
pub data State : Type 0 where
  initializing closed opening opened closing stopped_open stopped_close faulted : State

pub data Event : Type 0 where
  command_open command_close command_stop : Event
  limit_open_hit limit_open_released limit_closed_hit limit_closed_released : Event
  safety_beam_tripped safety_beam_cleared motor_timeout fault_cleared : Event

pub data Action : Type 0 where
  none drive_motor_open drive_motor_close stop_motor : Action
  set_led_closed set_led_opening set_led_open set_led_closing set_led_stopped set_led_fault : Action
  emit_telemetry_state_changed : Action

pub data Reason : Type 0 where
  none operator_stop safety_beam_obstacle motor_timeout : Reason
  limit_switch_conflict unexpected_event : Reason

pub data GateType : Type 0 where
  sliding dual_leaf : GateType

pub record Config : Type 0 where
  pub gate_type : GateType
  pub motor_timeout_ms : ℕ  -- uint32_t
  pub auto_close_ms : ℕ  -- uint32_t

-- `actions` holds the valid entries, `actions[0 .. count)`.
pub record Outputs : Type 0 where
  pub actions : List Action
  pub new_state : State
  pub transitioned : Bool
  pub reason : Reason

pub State-discrete : Discrete State
State-discrete = hlevel

-- `==` on states.
abbrev pub state_eq : State → State → Bool
state_eq initializing initializing = Bool.true
state_eq closed closed = Bool.true
state_eq opening opening = Bool.true
state_eq opened opened = Bool.true
state_eq closing closing = Bool.true
state_eq stopped_open stopped_open = Bool.true
state_eq stopped_close stopped_close = Bool.true
state_eq faulted faulted = Bool.true
state_eq _ _ = Bool.false

-- `==` on reasons and on events.
abbrev pub reason_eq : Reason → Reason → Bool
reason_eq Reason.none Reason.none = Bool.true
reason_eq Reason.operator_stop Reason.operator_stop = Bool.true
reason_eq Reason.safety_beam_obstacle Reason.safety_beam_obstacle = Bool.true
reason_eq Reason.motor_timeout Reason.motor_timeout = Bool.true
reason_eq Reason.limit_switch_conflict Reason.limit_switch_conflict = Bool.true
reason_eq Reason.unexpected_event Reason.unexpected_event = Bool.true
reason_eq _ _ = Bool.false

abbrev pub event_eq : Event → Event → Bool
event_eq Event.command_open Event.command_open = Bool.true
event_eq Event.command_close Event.command_close = Bool.true
event_eq Event.command_stop Event.command_stop = Bool.true
event_eq Event.limit_open_hit Event.limit_open_hit = Bool.true
event_eq Event.limit_open_released Event.limit_open_released = Bool.true
event_eq Event.limit_closed_hit Event.limit_closed_hit = Bool.true
event_eq Event.limit_closed_released Event.limit_closed_released = Bool.true
event_eq Event.safety_beam_tripped Event.safety_beam_tripped = Bool.true
event_eq Event.safety_beam_cleared Event.safety_beam_cleared = Bool.true
event_eq Event.motor_timeout Event.motor_timeout = Bool.true
event_eq Event.fault_cleared Event.fault_cleared = Bool.true
event_eq _ _ = Bool.false
