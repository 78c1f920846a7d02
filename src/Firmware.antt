-- ===== src/Firmware.antt =====
-- firmware/main/main.cpp: the gate controller and the RPC client wired together. The updater enters by
-- its flag and by the calls that it makes back; what it writes to flash is not modelled.
use alpr_li_dar_gate_automat.Platform.Api.{QueueApi, TimerApi}
use alpr_li_dar_gate_automat.Rpc.Client.{
  copy_str, complete_command, handle_command, notify_gate_event, Reading, to_wire_state,
  ControlClient, GateCommand, Telemetry, Wire, DispatchResult,
}
use alpr_li_dar_gate_automat.Machine.Types.{
  closed, opened, Event, State, command_close, command_open, initializing, none,
}
use alpr_li_dar_gate_automat.Base.{
  [], Bool, List, Option, false, if◌then◌else◌, none, not, some, suc, true, zero, ℕ, ◌∷◌,
}
use Prim.Native.String.{String}
use alpr_li_dar_gate_automat.Control.Effects
use alpr_li_dar_gate_automat.Drivers.StatusLed
use alpr_li_dar_gate_automat.Drivers.LimitSwitch
use alpr_li_dar_gate_automat.Drivers.SafetyBeam
use alpr_li_dar_gate_automat.Control.Controller.{GateController, Stimulus, Notice}
use alpr_li_dar_gate_automat.Drivers.StatusLed.{Pattern}
pub mod Safety

pub data CommandKind : Type 0 where
  unspecified open_gate close_gate pulse_relay latch_open latch_close release_latch reboot begin_ota
        show_pattern :
      CommandKind

-- What the dispatcher reads of a command besides its identifier.
pub record Order : Type 0 where
  pub kind : CommandKind
  pub led : ℕ

-- The wire values 0 to 5; others are refused.
unfoldable pub pattern_of : ℕ → Option Pattern
pattern_of led = pick led (
    Pattern.off ∷ Pattern.auth_flash ∷ Pattern.deny_flash ∷ Pattern.fault_slow ∷ Pattern.ota_pulse
    ∷ Pattern.boot_ok ∷ [])
  where
    pick : ℕ → List Pattern → Option Pattern
    pick n [] = none
    pick zero (p ∷ ps) = some p
    pick (suc n) (p ∷ ps) = pick n ps

-- `DispatchResult` with its default values but for those given.
abbrev refused : String → DispatchResult
refused error = record {
  accepted = false;
  completed_now = false;
  external_completion = false;
  terminal_ok = initializing;
  error = error;
}

abbrev tracked : State → DispatchResult
tracked goal = record {
  accepted = true;
  completed_now = false;
  external_completion = false;
  terminal_ok = goal;
  error = "";
}

abbrev done_now : DispatchResult
done_now = record {
  accepted = true;
  completed_now = true;
  external_completion = false;
  terminal_ok = initializing;
  error = "";
}

abbrev elsewhere : DispatchResult
elsewhere = record {
  accepted = true;
  completed_now = false;
  external_completion = true;
  terminal_ok = initializing;
  error = "";
}

-- `reboot_armed` is the one-shot that restarts the chip.
pub record Firmware (T : TimerApi) (Q : QueueApi Event) : Type 0 where
  pub gate : GateController T Q
  pub client : ControlClient
  pub ota_running : Bool
  pub ota_cmd_id : List ℕ
  pub reboot_armed : Bool

module _ {T : TimerApi} {Q : QueueApi Event} where
  unfoldable pub show_led_pattern : Firmware T Q → Pattern → Firmware T Q
  show_led_pattern f p = record f { gate = record f.gate { led = StatusLed.render f.gate.led p } }

  -- The command dispatcher. `task_created` is the result of `xTaskCreate` in OtaUpdater::begin.
  unfoldable pub dispatch : Bool → Firmware T Q → GateCommand Order → Firmware T Q × DispatchResult
  dispatch task_created f cmd = elim cmd.rest.kind [
    | open_gate ↦ (record f { gate = Effects.post f.gate command_open }, tracked opened)
    | close_gate ↦ (record f { gate = Effects.post f.gate command_close }, tracked closed)
    | show_pattern ↦ elim (pattern_of cmd.rest.led) [
      | none ↦ (f, refused "unknown led pattern")
      | some p ↦ (show_led_pattern f p, done_now)
    ]
    | reboot ↦ (record f { reboot_armed = true }, done_now)
    | begin_ota ↦
        if f.ota_running
        then (f, refused "an OTA update is already running")
        else if not task_created
        then (
          record f { ota_cmd_id = copy_str 40 cmd.command_id },
          refused "failed to start the OTA task",
        )
        else (
          show_led_pattern
              (record f { ota_cmd_id = copy_str 40 cmd.command_id; ota_running = true })
              Pattern.ota_pulse,
          elsewhere,
        )
    | unspecified ↦ (f, refused "unspecified command kind")
    | _ ↦ (f, refused "unsupported on the residential controller profile")
  ]

  -- The telemetry filler.
  unfoldable pub fill : Firmware T Q → Telemetry → Telemetry
  fill f t = record t {
    gate_state = to_wire_state f.gate.state_snapshot;
    limit_open = LimitSwitch.is_active f.gate.limit_open;
    limit_closed = LimitSwitch.is_active f.gate.limit_closed;
    safety_beam_clear = not (SafetyBeam.is_blocked f.gate.beam);
  }

module _ {T : TimerApi} {Q : QueueApi Event} (wire : Wire Order) where
  -- A command arrives: the client hands it to the dispatcher and arms its tracker, in one step here.
  unfoldable pub on_command : Bool → Reading → Firmware T Q → GateCommand Order → Firmware T Q
  on_command task_created r f cmd =
      let (f', result) = dispatch task_created f cmd in
      record f' { client = handle_command wire (some (λ _. result)) r f.client cmd }

  -- A round of the gate's pump, whose transition listener tells the client.
  unfoldable pub pump_gate : Reading → Firmware T Q → Firmware T Q
  pump_gate r f =
      let (gate', heard) = Effects.pump f.gate in
      record f {
        gate = gate';
        client = elim heard [
          | none ↦ f.client
          | some n ↦ notify_gate_event wire r f.client n.state n.reason n.transitioned
        ];
      }

  -- The updater ends, without an error or with one.
  unfoldable pub ota_done : Reading → Firmware T Q → Option String → Firmware T Q
  ota_done r f none = record f {
    client = complete_command wire r f.client f.ota_cmd_id true "";
    reboot_armed = true;
    ota_running = false;
  }
  ota_done r f (some error) = record (show_led_pattern f Pattern.deny_flash) {
    client = complete_command wire r f.client f.ota_cmd_id false error;
    ota_running = false;
  }
