-- ===== src/Scenarios/Firmware.antt =====
-- The drivers and the controller on concrete histories, over plain timers and queues.
use alpr_li_dar_gate_automat.Drivers.Relay.Contact.{energised}
use alpr_li_dar_gate_automat.Drivers.StatusLed
use alpr_li_dar_gate_automat.Drivers.StatusLed.Frames.{Plays, ticks, ticks-render}
use alpr_li_dar_gate_automat.Control.Watchdog.{full_queue_loses_watchdog}
use alpr_li_dar_gate_automat.Drivers.Debounce
use alpr_li_dar_gate_automat.Control.Effects.{
  post, pump_event, apply_policies, manage_timers, rearm, execute, execute_actions, execute_action,
  write_relays, write_relay, init_by, resolve_boot_position,
}
use alpr_li_dar_gate_automat.Control.Steps.{
  settle, prelatch, post_edge, on_poll_limit_open, on_poll_limit_closed, on_poll_beam, on_watchdog,
  on_autoclose,
}
use alpr_li_dar_gate_automat.Drivers.Debounce.{commit_after}
use alpr_li_dar_gate_automat.Control.Controller.{relay_writes, notice}
use alpr_li_dar_gate_automat.Machine
use alpr_li_dar_gate_automat.Drivers.LimitSwitch
use alpr_li_dar_gate_automat.Drivers.SafetyBeam
use alpr_li_dar_gate_automat.Base.{
  inr, none, replicate, refl, List, [], arith, false, some, true, ◌↔◌, ◌∷◌, ◌≡◌, ◌≢◌, ◌≤◌,
}
use alpr_li_dar_gate_automat.Platform.{simple_timers, simple_queues}
use alpr_li_dar_gate_automat.Machine.Types.{
  command_stop, Event, Action, sliding, opening, command_open,
}
use alpr_li_dar_gate_automat.Drivers.Debounce.{Debouncer, poll}
use alpr_li_dar_gate_automat.Drivers.Debounce.History.{after, run_length, poll-reports}
use alpr_li_dar_gate_automat.Drivers.Relay
use alpr_li_dar_gate_automat.Drivers.Relay.{Relay}
use alpr_li_dar_gate_automat.Drivers.Relay.Contact.{energised}
use alpr_li_dar_gate_automat.Drivers.StatusLed
use alpr_li_dar_gate_automat.Drivers.StatusLed.{StatusLed, Pattern, auth_flash}
use alpr_li_dar_gate_automat.Control.Controller.{
  GateController, Config, Stimulus, calls_open, calls_close, pumps, watchdog_fires, poll_beam, new,
}
use alpr_li_dar_gate_automat.Control.Steps.{run, step, start}
use alpr_li_dar_gate_automat.Control.Effects.{pump}
use alpr_li_dar_gate_automat.Control.Interlock.{ApartAlong, execute_actions-Apart}
use alpr_li_dar_gate_automat.Control.Boot.{run-booted-IsSound, booted-IsSound, booted}
use alpr_li_dar_gate_automat.Control.Safety.{IsSafe-of_sound, IsSafe, run-booted-IsSafe}
use alpr_li_dar_gate_automat.Control.Timers.{IsGuarded}
use alpr_li_dar_gate_automat.Control.Watchdog.{run-booted-IsGuarded}
use alpr_li_dar_gate_automat.Control.Reverse.{pump_reverses}

-- A limit switch input: inactive, and four samples commit a change.
abbrev quiet_input : Debouncer
quiet_input = record {
  active = false;
  last_sample = false;
  stable_samples = 0;
  samples_to_commit = 4;
}

poll-reports_example : ((poll (after quiet_input (true ∷ true ∷ true ∷ [])) true).1 ≡ some true) ↔ (
    (true ≢ (after quiet_input (true ∷ true ∷ true ∷ [])).active)
    × (4 ≤ run_length true (true ∷ true ∷ true ∷ true ∷ [])))
poll-reports_example = poll-reports quiet_input (true ∷ true ∷ true ∷ []) true (ground arith)

-- To unfold this is to unfold all that a run of the controller calls.
the_firmware : Unit {0}
unfolding run step start new pump settle prelatch post post_edge on_poll_limit_open
    on_poll_limit_closed on_poll_beam on_watchdog on_autoclose pump_event apply_policies
    manage_timers rearm execute execute_actions execute_action write_relays write_relay relay_writes
    notice init_by resolve_boot_position poll commit_after Debounce.new LimitSwitch.new
    LimitSwitch.on_poll LimitSwitch.read_active SafetyBeam.new SafetyBeam.on_poll
    SafetyBeam.read_blocked Relay.new Relay.set StatusLed.new StatusLed.render Machine.new
    Machine.handle Machine.init_closed Machine.init_open Machine.init_unknown
the_firmware = tt

abbrev gate_config : Config
gate_config = record {
  sm = record { gate_type = sliding; motor_timeout_ms = 30_000; auto_close_ms = 0 };
  reverse_on_beam = true;
}

-- The gate at its closed limit with a clear beam.
abbrev at_rest : GateController simple_timers simple_queues
at_rest = booted {T = simple_timers} {Q = simple_queues} gate_config 1 0 0 [] true

abbrev overrun : List Stimulus
overrun = calls_open ∷ pumps ∷ watchdog_fires ∷ pumps ∷ []

run-booted-IsSafe_example : IsSafe (run at_rest overrun)
run-booted-IsSafe_example =
    run-booted-IsSafe {T = simple_timers} {Q = simple_queues} gate_config 1 0 0 [] true overrun

execute_actions-Apart_example :
    ApartAlong at_rest (Action.drive_motor_open ∷ Action.drive_motor_close ∷ [])
execute_actions-Apart_example =
    execute_actions-Apart at_rest (Action.drive_motor_open ∷ Action.drive_motor_close ∷ [])
      (IsSafe-of_sound at_rest (booted-IsSound gate_config 1 0 0 [] true)).apart

-- Both timers enabled, and a history after which the gate moves with its watchdog expired.
abbrev closing_config : Config
closing_config = record {
  sm = record { gate_type = sliding; motor_timeout_ms = 30_000; auto_close_ms = 5_000 };
  reverse_on_beam = true;
}

run-booted-IsGuarded_example : IsGuarded (
    run
      (booted {T = simple_timers} {Q = simple_queues} closing_config 1 0 0 [] true)
      (calls_open ∷ pumps ∷ watchdog_fires ∷ []))
unfolding the_firmware
run-booted-IsGuarded_example =
    run-booted-IsGuarded {T = simple_timers} {Q = simple_queues} closing_config 1 0 0 [] true
      (calls_open ∷ pumps ∷ watchdog_fires ∷ []) (tt, (tt, (omega arith, tt)))

-- At the open limit, told to close, with something in the beam for five samples.
abbrev approach : List Stimulus
approach =
    calls_close ∷ pumps ∷ poll_beam 1 ∷ poll_beam 1 ∷ poll_beam 1 ∷ poll_beam 1 ∷ poll_beam 1 ∷ []

abbrev obstructed : GateController simple_timers simple_queues
obstructed = run (booted {T = simple_timers} {Q = simple_queues} gate_config 0 1 0 [] true) approach

pump_reverses_example :
    let d = (pump obstructed).0 in
    (d.queue.items ≡ command_open ∷ [])
    × (energised d.relay_open ≡ false)
    × (energised d.relay_close ≡ false)
    × (◌≡◌ {A = List Event} [] []
        → (energised (pump d).0.relay_open ≡ true)
          × (energised (pump d).0.relay_close ≡ false)
          × ((pump d).0.state_snapshot ≡ opening))
unfolding the_firmware
pump_reverses_example =
    pump_reverses obstructed [] (run-booted-IsSound gate_config 0 1 0 [] true approach) refl refl
      refl (omega arith)

-- Opening, with a queue that is full of stops.
abbrev swamped : GateController simple_timers simple_queues
swamped =
    let c : GateController simple_timers simple_queues = run at_rest (calls_open ∷ pumps ∷ []) in
    record c { queue = record { items = replicate 16 command_stop; bound = 16 } }

full_queue_loses_watchdog_example :
    ((step swamped watchdog_fires).sm.state ≡ swamped.sm.state)
    × (¬ IsGuarded (step swamped watchdog_fires))
unfolding the_firmware
full_queue_loses_watchdog_example =
    full_queue_loses_watchdog swamped refl (omega arith) refl (omega arith) refl

abbrev pulsed : Relay simple_timers
pulsed = Relay.unwritten Relay.default_config

ticks-render_example :
    Plays auth_flash 6
      (ticks 7 (StatusLed.render (StatusLed.new {T = simple_timers} true) auth_flash))
      none
ticks-render_example =
    ticks-render (StatusLed.new {T = simple_timers} true) auth_flash 6 (λ e. cc) refl (omega arith)
      (inr (λ e. cc))
