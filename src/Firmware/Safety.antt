-- ===== src/Firmware/Safety.antt =====
-- The gate under whatever the server sends.
use alpr_li_dar_gate_automat.Control.Steps.{step, run}
use alpr_li_dar_gate_automat.Control.Boot.{booted}
use alpr_li_dar_gate_automat.Control.Safety.{IsSafe, run-booted-IsSafe}
use alpr_li_dar_gate_automat.Rpc.Client.{pump}
use alpr_li_dar_gate_automat.Drivers.StatusLed.{Pattern}
use alpr_li_dar_gate_automat.Rpc.Client.{Wire}
use alpr_li_dar_gate_automat.Firmware.{
  ota_done, pump_gate, show_led_pattern, dispatch, pattern_of, Firmware, on_command, Order, fill,
  open_gate, close_gate, show_pattern, begin_ota,
}
use alpr_li_dar_gate_automat.Platform.Api.{QueueApi, TimerApi}
use alpr_li_dar_gate_automat.Rpc.Client.{GateCommand, Reading}
use alpr_li_dar_gate_automat.Machine.Types.{Event, none}
use alpr_li_dar_gate_automat.Base.{
  Bool, List, Option, [], ap, arith, if◌then◌else◌, none, not, refl, some, subst, sym, ℕ, ◌&&◌,
  ◌++◌, ◌∙◌, ◌∷◌, ◌≡◌,
}
use Prim.Native.String.{String}
use alpr_li_dar_gate_automat.Control.Controller.{
  pumps, calls_close, calls_open, shows_led, GateController, Stimulus, Config,
}

-- What happens to the firmware. `surrounds` is what happens to the gate apart from the client.
pub data Happening : Type 0 where
  arrives : Bool → Reading → GateCommand Order → Happening
  surrounds : Stimulus → Happening
  pumps_round : Reading → Happening
  client_turn : Reading → Bool → Happening
  ota_progress : Happening
  ota_ends : Reading → Option String → Happening

module _ {T : TimerApi} {Q : QueueApi Event} (wire : Wire Order) where
  unfoldable pub happen : Firmware T Q → Happening → Firmware T Q
  happen f (arrives created r cmd) = on_command wire created r f cmd
  happen f (surrounds s) = record f { gate = step f.gate s }
  happen f (pumps_round r) = pump_gate wire r f
  happen f (client_turn r headers_seen) = record f {
    client = pump wire (some (fill f)) r headers_seen f.client;
  }
  happen f ota_progress = show_led_pattern f Pattern.ota_pulse
  happen f (ota_ends r error) = ota_done wire r f error

  unfoldable pub happen_all : Firmware T Q → List Happening → Firmware T Q
  happen_all f [] = f
  happen_all f (h ∷ hs) = happen_all (happen f h) hs

  -- What a happening is to the gate.
  abbrev pub stimulus_of : Firmware T Q → Happening → List Stimulus
  stimulus_of f (arrives created r cmd) = elim cmd.rest.kind [
    | open_gate ↦ calls_open ∷ []
    | close_gate ↦ calls_close ∷ []
    | show_pattern ↦ elim (pattern_of cmd.rest.led) [ none ↦ [] | some p ↦ shows_led p ∷ [] ]
    | begin_ota ↦ if not f.ota_running && created then shows_led Pattern.ota_pulse ∷ [] else []
    | _ ↦ []
  ]
  stimulus_of f (surrounds s) = s ∷ []
  stimulus_of f (pumps_round r) = pumps ∷ []
  stimulus_of f (client_turn r headers_seen) = []
  stimulus_of f ota_progress = shows_led Pattern.ota_pulse ∷ []
  stimulus_of f (ota_ends r none) = []
  stimulus_of f (ota_ends r (some error)) = shows_led Pattern.deny_flash ∷ []

  unfoldable pub stimuli_of : Firmware T Q → List Happening → List Stimulus
  stimuli_of f [] = []
  stimuli_of f (h ∷ hs) = stimulus_of f h ++ stimuli_of (happen f h) hs

  happen_gate :
      (f : Firmware T Q) (h : Happening) → (happen f h).gate ≡ run f.gate (stimulus_of f h)
  unfolding happen on_command dispatch show_led_pattern pump_gate ota_done run step
  happen_gate f (arrives created r cmd) = ground arith
  happen_gate f (surrounds s) = refl
  happen_gate f (pumps_round r) = refl
  happen_gate f (client_turn r headers_seen) = refl
  happen_gate f ota_progress = refl
  happen_gate f (ota_ends r none) = refl
  happen_gate f (ota_ends r (some error)) = refl

  run-append :
      (c : GateController T Q) (ss more : List Stimulus) → run c (ss ++ more) ≡ run (run c ss) more
  unfolding run
  run-append c [] more = refl
  run-append c (s ∷ ss) more = run-append (step c s) ss more

  -- Whatever the server commands and the updater does, the gate goes through a history of polls,
  -- timer expiries, commands and pump rounds, as it would alone.
  pub happen_all_gate :
      (f : Firmware T Q) (hs : List Happening)
      → (happen_all f hs).gate ≡ run f.gate (stimuli_of f hs)
  unfolding happen_all stimuli_of
  happen_all_gate f [] = unfold run in refl
  happen_all_gate f (h ∷ hs) =
      happen_all_gate (happen f h) hs
      ∙ ap (λ c. run c (stimuli_of (happen f h) hs)) (happen_gate f h)
      ∙ sym (run-append f.gate (stimulus_of f h) (stimuli_of (happen f h) hs))

  -- After any boot of the gate, whatever the server commands, the inputs and timers do and the
  -- updater reports, in any order: the contactors drive the motor as the published state says, closing
  -- only while the beam latch is clear and never both, and the watchdog runs only while one is
  -- energised.
  pub happen_all-IsSafe :
      (cfg : Config) (o c b : ℕ) (ps : List Stimulus) (created : Bool) (f : Firmware T Q)
      (hs : List Happening)
      → f.gate ≡ booted {T = T} {Q = Q} cfg o c b ps created
      → IsSafe (happen_all f hs).gate
  happen_all-IsSafe cfg o c b ps created f hs e =
      subst IsSafe (sym (happen_all_gate f hs ∙ ap (λ g. run g (stimuli_of f hs)) e))
        (run-booted-IsSafe cfg o c b ps created (stimuli_of f hs))
