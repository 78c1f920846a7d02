-- ===== src/Simulation/VirtualGate.antt =====
-- simulation/src/virtual_gate.cpp: the state machine and the command tracker over simulated motors.
-- Positions are sums of milliseconds, which a double holds exactly, so they are natural numbers; the
-- 64-bit clock does not wrap.
use Prim.Native.String.{String}
use alpr_li_dar_gate_automat.Machine.Types.{
  command_stop, closing, Reason, closed, initializing, limit_closed_hit, opening, sliding,
  stopped_close, Config, command_close, command_open, fault_cleared, limit_open_hit, opened,
  reason_eq, safety_beam_cleared, safety_beam_tripped, state_eq, Action, Event, Outputs, State,
}
use alpr_li_dar_gate_automat.Rpc.Tracker.{
  on_gate_event, Verdict, arm, CommandTracker, on_tick, no_verdict,
}
use alpr_li_dar_gate_automat.Machine.{init_unknown, handle, init_open, StateMachine, init_closed}
use alpr_li_dar_gate_automat.Base.{
  none, Bool, List, [], add32, false, if◌then◌else◌, leb, ltb, not, suc, true, u32_mod, zero, ℕ,
  ◌%◌, ◌&&◌, ◌++◌, ◌+◌, ◌-◌, ◌||◌, ◌∷◌,
}
use alpr_li_dar_gate_automat.Machine
use alpr_li_dar_gate_automat.Rpc.Tracker
pub mod Depth
pub mod Invariant
pub mod Safety
pub mod Boots
pub mod Countdown
pub mod Calls
pub mod Acks
pub mod Answers
pub mod Travel
pub mod Stranded
pub mod Redundant

pub record SimConfig : Type 0 where
  pub travel_ms : ℕ
  pub motor_timeout_ms : ℕ
  pub auto_close_ms : ℕ
  pub reverse_on_beam : Bool
  pub command_deadline_ms : ℕ

pub record Ack : Type 0 where
  pub command_id : List ℕ
  pub success : Bool
  pub error : String

pub data Command : Type 0 where
  open_gate close_gate : Command

pub record VirtualGate : Type 0 where
  pub cfg : SimConfig
  pub machine : StateMachine
  pub tracker : CommandTracker
  pub now_ms : ℕ
  pub position_ms : ℕ
  pub motor_open : Bool
  pub motor_close : Bool
  pub beam_blocked : Bool
  pub watchdog_deadline : ℕ  -- 0 is disarmed
  pub autoclose_deadline : ℕ  -- 0 is disarmed
  pub acks : List Ack

unfoldable pub machine_config : SimConfig → Config
machine_config c = record {
  gate_type = sliding;
  motor_timeout_ms = c.motor_timeout_ms;
  auto_close_ms = c.auto_close_ms;
}

unfoldable pub power_on : SimConfig → VirtualGate
power_on c = record {
  cfg = c;
  machine = Machine.new (machine_config c);
  tracker = Tracker.new;
  now_ms = 0;
  position_ms = 0;
  motor_open = false;
  motor_close = false;
  beam_blocked = false;
  watchdog_deadline = 0;
  autoclose_deadline = 0;
  acks = [];
}

abbrev pub ack_of : Verdict → List Ack
ack_of v =
    if v.fire
    then record { command_id = v.command_id; success = v.success; error = v.error } ∷ []
    else []

unfoldable pub record_ack : VirtualGate → CommandTracker × Verdict → VirtualGate
record_ack g (t, v) = record g { tracker = t; acks = g.acks ++ ack_of v }

-- The two motor flags, opening first, after an action.
unfoldable pub drive : Bool × Bool → Action → Bool × Bool
drive motors Action.drive_motor_open = (true, false)
drive motors Action.drive_motor_close = (false, true)
drive motors Action.stop_motor = (false, false)
drive motors _ = motors

unfoldable pub drive_all : Bool × Bool → List Action → Bool × Bool
drive_all motors [] = motors
drive_all motors (a ∷ rest) = drive_all (drive motors a) rest

unfoldable pub set_motors : VirtualGate → Outputs → VirtualGate
set_motors g out =
    let motors = drive_all (g.motor_open, g.motor_close) out.actions in
    record g { motor_open = motors.0; motor_close = motors.1 }

-- The deadlines that a transition sets.
unfoldable pub set_deadlines : VirtualGate → Outputs → VirtualGate
set_deadlines g out =
    let moving = state_eq out.new_state opening || state_eq out.new_state closing in
    let counts = state_eq out.new_state opened && ltb 0 g.cfg.auto_close_ms in
    record g {
      watchdog_deadline =
          if out.transitioned
          then (if moving then g.now_ms + g.cfg.motor_timeout_ms else 0)
          else g.watchdog_deadline;
      autoclose_deadline =
          if out.transitioned
          then (if counts then g.now_ms + g.cfg.auto_close_ms else 0)
          else g.autoclose_deadline;
    }

unfoldable pub tell_tracker : VirtualGate → Outputs → VirtualGate
tell_tracker g out = record_ack g (
    if out.transitioned || not (reason_eq out.reason Reason.none)
    then on_gate_event g.tracker out.new_state out.reason out.transitioned
    else (g.tracker, no_verdict))

abbrev pub reverses : VirtualGate → Outputs → Bool
reverses g out =
    g.cfg.reverse_on_beam
    && out.transitioned
    && state_eq out.new_state stopped_close
    && reason_eq out.reason Reason.safety_beam_obstacle

abbrev pub close_refused : VirtualGate → Outputs → Bool
close_refused g out =
    not out.transitioned
    && state_eq out.new_state opened
    && reason_eq out.reason Reason.safety_beam_obstacle
    && ltb 0 g.cfg.auto_close_ms

-- `apply_locked` up to its policies.
unfoldable pub carry_out : VirtualGate → Outputs → VirtualGate
carry_out g out = tell_tracker (set_deadlines (set_motors g out) out) out

-- `apply_locked` and `step_locked` call each other; the number bounds how deep.
unfoldable pub apply_locked : ℕ → VirtualGate → Outputs → VirtualGate
apply_locked zero g out = g
apply_locked (suc depth) g out =
    let g' = carry_out g out in
    let (m, again) = handle g'.machine command_open in
    let reversed = apply_locked depth (record g' { machine = m }) again in
    if reverses g' out
    then reversed
    else if close_refused g' out
    then record g' { autoclose_deadline = g'.now_ms + g'.cfg.auto_close_ms }
    else g'

abbrev pub max_depth : ℕ
max_depth = 2

unfoldable pub settle : VirtualGate → StateMachine × Outputs → VirtualGate
settle g (m, out) = apply_locked max_depth (record g { machine = m }) out

unfoldable pub step_locked : VirtualGate → Event → VirtualGate
step_locked g ev = settle g (handle g.machine ev)

unfoldable pub resolve_position : VirtualGate → VirtualGate
resolve_position g =
    if leb g.position_ms 0
    then settle g (init_closed g.machine)
    else if leb g.cfg.travel_ms g.position_ms
    then settle g (init_open g.machine)
    else settle g (init_unknown g.machine)

unfoldable pub boot_closed : VirtualGate → VirtualGate
boot_closed g = let g' = record g { position_ms = 0 } in settle g' (init_closed g'.machine)

abbrev pub terminal_of : Command → State
terminal_of open_gate = opened
terminal_of close_gate = closed

abbrev pub event_of : Command → Event
event_of open_gate = command_open
event_of close_gate = command_close

unfoldable pub issue : VirtualGate → List ℕ → Command → VirtualGate
issue g command_id c =
    step_locked
      (record_ack g (
        arm g.tracker command_id (terminal_of c)
          (add32 (g.now_ms % u32_mod) g.cfg.command_deadline_ms)))
      (event_of c)

unfoldable pub clear_fault : VirtualGate → VirtualGate
clear_fault g =
    let g' = step_locked g fault_cleared in
    if state_eq g'.machine.state initializing then resolve_position g' else g'

unfoldable pub reboot : VirtualGate → VirtualGate
reboot g =
    let m = Machine.new (machine_config g.cfg) in
    let m' = if g.beam_blocked then (handle m safety_beam_tripped).0 else m in
    resolve_position (record g {
      motor_open = false;
      motor_close = false;
      watchdog_deadline = 0;
      autoclose_deadline = 0;
      machine = m';
    })

unfoldable pub trip_beam : VirtualGate → VirtualGate
trip_beam g = step_locked (record g { beam_blocked = true }) safety_beam_tripped

unfoldable pub clear_beam : VirtualGate → VirtualGate
clear_beam g = step_locked (record g { beam_blocked = false }) safety_beam_cleared

unfoldable pub local_open : VirtualGate → VirtualGate
local_open g = step_locked g command_open

unfoldable pub local_close : VirtualGate → VirtualGate
local_close g = step_locked g command_close

unfoldable pub operator_stop : VirtualGate → VirtualGate
operator_stop g = step_locked g command_stop

-- The physics of `advance`.
unfoldable pub move : VirtualGate → ℕ → VirtualGate
move g dt_ms =
    if g.motor_open
    then (if leb g.cfg.travel_ms (g.position_ms + dt_ms)
        then step_locked (record g { position_ms = g.cfg.travel_ms }) limit_open_hit
        else record g { position_ms = g.position_ms + dt_ms })
    else if g.motor_close
    then (if leb g.position_ms dt_ms
        then step_locked (record g { position_ms = 0 }) limit_closed_hit
        else record g { position_ms = g.position_ms - dt_ms })
    else g

unfoldable pub check_watchdog : VirtualGate → VirtualGate
check_watchdog g =
    if ltb 0 g.watchdog_deadline && leb g.watchdog_deadline g.now_ms
    then step_locked (record g { watchdog_deadline = 0 }) Event.motor_timeout
    else g

unfoldable pub check_autoclose : VirtualGate → VirtualGate
check_autoclose g =
    if ltb 0 g.autoclose_deadline && leb g.autoclose_deadline g.now_ms
    then step_locked (record g { autoclose_deadline = 0 }) command_close
    else g

unfoldable pub tick_tracker : VirtualGate → VirtualGate
tick_tracker g = record_ack g (on_tick g.tracker (g.now_ms % u32_mod))

unfoldable pub advance : VirtualGate → ℕ → VirtualGate
advance g dt_ms =
    check_autoclose
      (check_watchdog (move (tick_tracker (record g { now_ms = g.now_ms + dt_ms })) dt_ms))

unfoldable pub drain_acks : VirtualGate → VirtualGate × List Ack
drain_acks g = (record g { acks = [] }, g.acks)

unfoldable pub limit_open : VirtualGate → Bool
limit_open g = leb g.cfg.travel_ms g.position_ms

unfoldable pub limit_closed : VirtualGate → Bool
limit_closed g = leb g.position_ms 0
