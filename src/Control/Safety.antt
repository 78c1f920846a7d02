-- ===== src/Control/Safety.antt =====
-- What the wiring shows of a running controller.
use alpr_li_dar_gate_automat.Base.{Bool, List, arith, false, true, ℕ, ◌≡◌, ◌⊎◌}
use alpr_li_dar_gate_automat.Platform.Api.{TimerApi, QueueApi}
use alpr_li_dar_gate_automat.Machine.Types.{Event, opening, closing, state_eq}
use alpr_li_dar_gate_automat.Drivers.Relay.Contact.{energised}
use alpr_li_dar_gate_automat.Control.Controller.{GateController, Config, Stimulus}
use alpr_li_dar_gate_automat.Control.Steps.{run}
use alpr_li_dar_gate_automat.Control.Invariant.{IsSound}
use alpr_li_dar_gate_automat.Control.Boot.{booted, run-booted-IsSound}

module _ {T : TimerApi} {Q : QueueApi Event} where
  -- The contactors drive the motor as the published state says, the closing one only while the
  -- latch has the beam clear, and never both.
  pub record IsSafe (c : GateController T Q) : Type 0 where
    pub opens : energised c.relay_open ≡ state_eq c.state_snapshot opening
    pub closes : energised c.relay_close ≡ state_eq c.state_snapshot closing
    pub beam_respected : energised c.relay_close ≡ true → c.sm.beam_clear ≡ true
    pub apart : (energised c.relay_open ≡ false) ⊎ (energised c.relay_close ≡ false)
    pub still_watched :
        T.is_active c.watchdog_timer ≡ true
        → (energised c.relay_open ≡ true) ⊎ (energised c.relay_close ≡ true)

  pub IsSafe-of_sound : (c : GateController T Q) → IsSound c → IsSafe c
  IsSafe-of_sound c v = ground (arith, v.machine_valid)

  -- After any boot and any sequence of polls, timer expiries, commands and pump rounds, the
  -- contactors drive the motor as the published state says, closing only while the beam latch is
  -- clear and never both; the motor watchdog runs only while a contactor is energised.
  pub run-booted-IsSafe :
      (cfg : Config) (o c b : ℕ) (ps : List Stimulus) (created : Bool) (ss : List Stimulus)
      → IsSafe (run (booted {T = T} {Q = Q} cfg o c b ps created) ss)
  run-booted-IsSafe cfg o c b ps created ss =
      IsSafe-of_sound _ (run-booted-IsSound cfg o c b ps created ss)
