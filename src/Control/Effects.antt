-- ===== src/Control/Effects.antt =====
-- What the pump task does with an event: the relays and the LED, the two timers, the policies, and
-- the boot position.
use alpr_li_dar_gate_automat.Base.{
  Bool, List, Option, [], if◌then◌else◌, ltb, none, not, some, true, ℕ, ◌&&◌, ◌*◌, ◌||◌, ◌∷◌,
}
use alpr_li_dar_gate_automat.Platform.Api.{TimerApi, QueueApi}
use alpr_li_dar_gate_automat.Machine.{StateMachine, handle, init_closed, init_open, init_unknown}
use alpr_li_dar_gate_automat.Machine.Types.{
  State, initializing, opening, opened, closing, stopped_close, Event, command_open, fault_cleared,
  Action, Reason, Outputs, state_eq, reason_eq, event_eq,
}
use alpr_li_dar_gate_automat.Drivers.LimitSwitch
use alpr_li_dar_gate_automat.Drivers.LimitSwitch.{LimitSwitch}
use alpr_li_dar_gate_automat.Drivers.Relay
use alpr_li_dar_gate_automat.Drivers.Relay.{Relay}
use alpr_li_dar_gate_automat.Drivers.StatusLed
use alpr_li_dar_gate_automat.Drivers.StatusLed.{StatusLed, Pattern}
use alpr_li_dar_gate_automat.Control.Controller.{
  GateController, RelayWrite, write_open, write_close, relay_writes, led_pattern, Notice, notice,
}

-- Stop the timer if it runs, and start it for `ms` milliseconds if wanted and enabled.
unfoldable pub rearm : (T : TimerApi) → T.Timer → Bool → ℕ → T.Timer
rearm T t wanted ms =
    let t' = if T.is_active t then T.stop t else t in
    if wanted && ltb 0 ms then T.start_once t' (ms * 1000) else t'

abbrev pub moving : State → Bool
moving s = state_eq s opening || state_eq s closing

-- One pair of limit readings, one `init_*` call.
unfoldable pub init_by : Bool → Bool → StateMachine → StateMachine × Outputs
init_by open_active closed_active m =
    if closed_active && not open_active
    then init_closed m
    else if open_active && not closed_active
    then init_open m
    else init_unknown m

module _ {T : TimerApi} {Q : QueueApi Event} where
  -- A full queue drops the event.
  unfoldable pub post : GateController T Q → Event → GateController T Q
  post c ev = record c { queue = (Q.send c.queue ev).0 }

  unfoldable pub write_relay : GateController T Q → RelayWrite → GateController T Q
  write_relay c (write_open on) = record c { relay_open = Relay.set c.relay_open on }
  write_relay c (write_close on) = record c { relay_close = Relay.set c.relay_close on }

  unfoldable pub write_relays : GateController T Q → List RelayWrite → GateController T Q
  write_relays c [] = c
  write_relays c (w ∷ ws) = write_relays (write_relay c w) ws

  show : GateController T Q → Option Pattern → GateController T Q
  show c none = c
  show c (some p) = record c { led = StatusLed.render c.led p }

  unfoldable pub execute_action : GateController T Q → Action → GateController T Q
  unfolding show
  execute_action c a = show (write_relays c (relay_writes a)) (led_pattern a)

  unfoldable pub execute_actions : GateController T Q → List Action → GateController T Q
  execute_actions c [] = c
  execute_actions c (a ∷ rest) = execute_actions (execute_action c a) rest

  unfoldable pub execute : GateController T Q → Outputs → GateController T Q
  execute c out =
      let c' = execute_actions c out.actions in
      record c' { state_snapshot = c'.sm.state; reason_snapshot = c'.sm.reason }

  unfoldable pub manage_timers : GateController T Q → Outputs → GateController T Q
  manage_timers c out = if not out.transitioned then c else record c {
    watchdog_timer = rearm T c.watchdog_timer (moving out.new_state) c.cfg.sm.motor_timeout_ms;
    autoclose_timer =
        rearm T c.autoclose_timer (state_eq out.new_state opened) c.cfg.sm.auto_close_ms;
  }

  unfoldable pub apply_policies : GateController T Q → Outputs → GateController T Q
  unfolding post
  apply_policies c out =
      if c.cfg.reverse_on_beam
        && out.transitioned
        && state_eq out.new_state stopped_close
        && reason_eq out.reason Reason.safety_beam_obstacle
      then post c command_open
      else if not out.transitioned
          && state_eq out.new_state opened
          && reason_eq out.reason Reason.safety_beam_obstacle
          && ltb 0 c.cfg.sm.auto_close_ms
      then record c { autoclose_timer = rearm T c.autoclose_timer true c.cfg.sm.auto_close_ms }
      else c

  unfoldable pub resolve_boot_position : GateController T Q → GateController T Q
  resolve_boot_position c =
      let (m, out) =
        init_by (LimitSwitch.is_active c.limit_open) (LimitSwitch.is_active c.limit_closed) c.sm in
      manage_timers (execute (record c { sm = m }) out) out

  -- The body of the pump task for a received event.
  unfoldable pub pump_event : GateController T Q → Event → GateController T Q × Option Notice
  pump_event c ev =
      let (m, out) = handle c.sm ev in
      let c' = apply_policies (manage_timers (execute (record c { sm = m }) out) out) out in
      (
        if event_eq ev fault_cleared && out.transitioned && state_eq out.new_state initializing
            then resolve_boot_position c'
            else c',
        notice out,
      )

  -- One round of the pump: a received event, or the heartbeat, which only logs.
  unfoldable pub pump : GateController T Q → GateController T Q × Option Notice
  pump c =
      let c' = record c { queue = (Q.receive c.queue).0 } in
      elim (Q.receive c.queue).1 [ none ↦ (c', none) | some ev ↦ pump_event c' ev ]
