-- ===== src/Machine/Names.antt =====
-- The `to_string` overloads of state_machine.cpp, which logs, telemetry and command verdicts print.
use Prim.Native.String.{String}
use text.Mathlib.Text.{◌==◌ as str_eq}
use alpr_li_dar_gate_automat.Base.{◌≡◌, refl, sym, ap, ◌∙◌, List, [], ◌∷◌, if◌then◌else◌}
use alpr_li_dar_gate_automat.Machine.Types.{State, Event, Action, Reason}

unfoldable pub state_to_string : State → String
state_to_string State.initializing = "Initializing"
state_to_string State.closed = "Closed"
state_to_string State.opening = "Opening"
state_to_string State.opened = "Open"
state_to_string State.closing = "Closing"
state_to_string State.stopped_open = "StoppedOpen"
state_to_string State.stopped_close = "StoppedClose"
state_to_string State.faulted = "Faulted"

unfoldable pub event_to_string : Event → String
event_to_string Event.command_open = "CommandOpen"
event_to_string Event.command_close = "CommandClose"
event_to_string Event.command_stop = "CommandStop"
event_to_string Event.limit_open_hit = "LimitOpenHit"
event_to_string Event.limit_open_released = "LimitOpenReleased"
event_to_string Event.limit_closed_hit = "LimitClosedHit"
event_to_string Event.limit_closed_released = "LimitClosedReleased"
event_to_string Event.safety_beam_tripped = "SafetyBeamTripped"
event_to_string Event.safety_beam_cleared = "SafetyBeamCleared"
event_to_string Event.motor_timeout = "MotorTimeout"
event_to_string Event.fault_cleared = "FaultCleared"

unfoldable pub action_to_string : Action → String
action_to_string Action.none = "None"
action_to_string Action.drive_motor_open = "DriveMotorOpen"
action_to_string Action.drive_motor_close = "DriveMotorClose"
action_to_string Action.stop_motor = "StopMotor"
action_to_string Action.set_led_closed = "SetLedClosed"
action_to_string Action.set_led_opening = "SetLedOpening"
action_to_string Action.set_led_open = "SetLedOpen"
action_to_string Action.set_led_closing = "SetLedClosing"
action_to_string Action.set_led_stopped = "SetLedStopped"
action_to_string Action.set_led_fault = "SetLedFault"
action_to_string Action.emit_telemetry_state_changed = "EmitTelemetryStateChanged"

unfoldable pub reason_to_string : Reason → String
reason_to_string Reason.none = "None"
reason_to_string Reason.operator_stop = "OperatorStop"
reason_to_string Reason.safety_beam_obstacle = "SafetyBeamObstacle"
reason_to_string Reason.motor_timeout = "MotorTimeout"
reason_to_string Reason.limit_switch_conflict = "LimitSwitchConflict"
reason_to_string Reason.unexpected_event = "UnexpectedEvent"

-- The value that a text names among those listed.
abbrev named : {A : Type 0} → (A → String) → A → List A → String → A
named name d [] t = d
named name d (x ∷ xs) t = if str_eq (name x) t then x else named name d xs t

-- A printer that a listing undoes is injective.
injective_of_named :
    {A : Type 0} (name : A → String) (d : A) (xs : List A)
    → ((a : A) → named name d xs (name a) ≡ a)
    → (a b : A) → name a ≡ name b
    → a ≡ b
injective_of_named name d xs undo a b h = sym (undo a) ∙ (ap (λ t. named name d xs t) h ∙ undo b)

abbrev states : List State
states =
    State.initializing ∷ State.closed ∷ State.opening ∷ State.opened ∷ State.closing
    ∷ State.stopped_open ∷ State.stopped_close ∷ State.faulted ∷ []

named-state_to_string :
    (a : State) → named state_to_string State.initializing states (state_to_string a) ≡ a
unfolding state_to_string
named-state_to_string State.initializing = refl
named-state_to_string _ = refl

-- Two states print alike only if they are the same.
pub state_to_string-injective : (a b : State) → state_to_string a ≡ state_to_string b → a ≡ b
state_to_string-injective =
    injective_of_named state_to_string State.initializing states named-state_to_string

abbrev events : List Event
events =
    Event.command_open ∷ Event.command_close ∷ Event.command_stop ∷ Event.limit_open_hit
    ∷ Event.limit_open_released ∷ Event.limit_closed_hit ∷ Event.limit_closed_released
    ∷ Event.safety_beam_tripped ∷ Event.safety_beam_cleared ∷ Event.motor_timeout
    ∷ Event.fault_cleared ∷ []

named-event_to_string :
    (a : Event) → named event_to_string Event.command_open events (event_to_string a) ≡ a
unfolding event_to_string
named-event_to_string Event.command_open = refl
named-event_to_string _ = refl

-- Two events print alike only if they are the same.
pub event_to_string-injective : (a b : Event) → event_to_string a ≡ event_to_string b → a ≡ b
event_to_string-injective =
    injective_of_named event_to_string Event.command_open events named-event_to_string

abbrev actions : List Action
actions =
    Action.none ∷ Action.drive_motor_open ∷ Action.drive_motor_close ∷ Action.stop_motor
    ∷ Action.set_led_closed ∷ Action.set_led_opening ∷ Action.set_led_open ∷ Action.set_led_closing
    ∷ Action.set_led_stopped ∷ Action.set_led_fault ∷ Action.emit_telemetry_state_changed ∷ []

named-action_to_string :
    (a : Action) → named action_to_string Action.none actions (action_to_string a) ≡ a
unfolding action_to_string
named-action_to_string Action.none = refl
named-action_to_string _ = refl

-- Two actions print alike only if they are the same.
pub action_to_string-injective : (a b : Action) → action_to_string a ≡ action_to_string b → a ≡ b
action_to_string-injective =
    injective_of_named action_to_string Action.none actions named-action_to_string

abbrev reasons : List Reason
reasons =
    Reason.none ∷ Reason.operator_stop ∷ Reason.safety_beam_obstacle ∷ Reason.motor_timeout
    ∷ Reason.limit_switch_conflict ∷ Reason.unexpected_event ∷ []

named-reason_to_string :
    (a : Reason) → named reason_to_string Reason.none reasons (reason_to_string a) ≡ a
unfolding reason_to_string
named-reason_to_string Reason.none = refl
named-reason_to_string _ = refl

-- Two reasons print alike only if they are the same.
pub reason_to_string-injective : (a b : Reason) → reason_to_string a ≡ reason_to_string b → a ≡ b
reason_to_string-injective =
    injective_of_named reason_to_string Reason.none reasons named-reason_to_string
