-- ===== src/Control/Controller.antt =====
-- The object of class GateController, its configuration, and what it exchanges with its surroundings.
use alpr_li_dar_gate_automat.Drivers.StatusLed
use alpr_li_dar_gate_automat.Drivers.Relay
use alpr_li_dar_gate_automat.Drivers.SafetyBeam
use alpr_li_dar_gate_automat.Drivers.LimitSwitch
use alpr_li_dar_gate_automat.Base.{
  Bool, List, Option, [], false, if◌then◌else◌, none, not, some, true, ℕ, ◌||◌, ◌∷◌,
}
use alpr_li_dar_gate_automat.Platform.Api.{TimerApi, QueueApi}
use alpr_li_dar_gate_automat.Machine
use alpr_li_dar_gate_automat.Machine.{StateMachine, handle, init_closed, init_open, init_unknown}
use alpr_li_dar_gate_automat.Machine.Types.{
  State, initializing, opening, opened, closing, stopped_close, Event, command_open, command_close,
  command_stop, limit_open_hit, limit_open_released, limit_closed_hit, limit_closed_released,
  safety_beam_tripped, safety_beam_cleared, motor_timeout, fault_cleared, Action, Reason, Outputs,
  state_eq, reason_eq, event_eq,
}
use alpr_li_dar_gate_automat.Drivers.LimitSwitch.{LimitSwitch}
use alpr_li_dar_gate_automat.Drivers.SafetyBeam.{SafetyBeam}
use alpr_li_dar_gate_automat.Drivers.Relay.{Relay}
use alpr_li_dar_gate_automat.Drivers.StatusLed.{StatusLed, Pattern}

pub record Config : Type 0 where
  pub sm : Machine.Types.Config
  pub reverse_on_beam : Bool

abbrev pub queue_depth : ℕ
queue_depth = 16

-- The results of `start`.
pub data EspErr : Type 0 where
  esp_ok esp_err_invalid_state esp_err_no_mem : EspErr

module _ (T : TimerApi) (Q : QueueApi Event) where
  -- `registered`: the edge callbacks are set.
  pub record GateController : Type 0 where
    pub cfg : Config
    pub relay_open : Relay T
    pub relay_close : Relay T
    pub limit_open : LimitSwitch
    pub limit_closed : LimitSwitch
    pub beam : SafetyBeam
    pub led : StatusLed T
    pub sm : StateMachine
    pub state_snapshot : State
    pub reason_snapshot : Reason
    pub queue : Q.Queue
    pub watchdog_timer : T.Timer
    pub autoclose_timer : T.Timer
    pub started : Bool
    pub registered : Bool

-- The relay writes of an action, in their order.
pub data RelayWrite : Type 0 where
  write_open write_close : Bool → RelayWrite

unfoldable pub relay_writes : Action → List RelayWrite
relay_writes Action.drive_motor_open = write_close false ∷ write_open true ∷ []
relay_writes Action.drive_motor_close = write_open false ∷ write_close true ∷ []
relay_writes Action.stop_motor = write_open false ∷ write_close false ∷ []
relay_writes _ = []

-- The LED pattern of an action, if it has one.
abbrev pub led_pattern : Action → Option Pattern
led_pattern Action.set_led_closed = some Pattern.off
led_pattern Action.set_led_opening = some Pattern.gate_moving
led_pattern Action.set_led_closing = some Pattern.gate_moving
led_pattern Action.set_led_open = some Pattern.gate_open
led_pattern Action.set_led_stopped = some Pattern.gate_stopped
led_pattern Action.set_led_fault = some Pattern.fault_slow
led_pattern _ = none

-- What the transition listener hears.
pub record Notice : Type 0 where
  pub state : State
  pub reason : Reason
  pub transitioned : Bool

unfoldable pub notice : Outputs → Option Notice
notice out =
    if out.transitioned || not (reason_eq out.reason Reason.none)
    then some
        (record { state = out.new_state; reason = out.reason; transitioned = out.transitioned })
    else none

-- What happens around a controller.
pub data Stimulus : Type 0 where
  poll_limit_open poll_limit_closed poll_beam : ℕ → Stimulus
  watchdog_fires autoclose_fires : Stimulus
  calls_open calls_close calls_stop calls_clear_fault : Stimulus
  shows_led : Pattern → Stimulus
  pumps : Stimulus

module _ {T : TimerApi} {Q : QueueApi Event} where
  -- The constructor, given what the three input pins read; the drivers get their default
  -- configurations.
  unfoldable pub new : Config → ℕ → ℕ → ℕ → GateController T Q
  new cfg raw_open raw_closed raw_beam = record {
    cfg = cfg;
    relay_open = Relay.new Relay.default_config;
    relay_close = Relay.new Relay.default_config;
    limit_open = LimitSwitch.new LimitSwitch.default_config raw_open;
    limit_closed = LimitSwitch.new LimitSwitch.default_config raw_closed;
    beam = SafetyBeam.new SafetyBeam.default_config raw_beam;
    led = StatusLed.new true;
    sm = Machine.new cfg.sm;
    state_snapshot = initializing;
    reason_snapshot = Reason.none;
    queue = Q.create queue_depth;
    watchdog_timer = T.create;
    autoclose_timer = T.create;
    started = false;
    registered = false;
  }
