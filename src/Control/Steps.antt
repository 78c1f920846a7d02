-- ===== src/Control/Steps.antt =====
-- Everything that happens to a controller: polls, timer expiries, commands, rounds of the pump, and
-- `start`.
use alpr_li_dar_gate_automat.Base.{Bool, List, Option, [], if◌then◌else◌, none, some, true, ℕ, ◌∷◌}
use alpr_li_dar_gate_automat.Platform.Api.{TimerApi, QueueApi}
use alpr_li_dar_gate_automat.Machine.{handle}
use alpr_li_dar_gate_automat.Machine.Types.{
  Event, command_open, command_close, command_stop, limit_open_hit, limit_open_released,
  limit_closed_hit, limit_closed_released, safety_beam_tripped, safety_beam_cleared, motor_timeout,
  fault_cleared,
}
use alpr_li_dar_gate_automat.Drivers.LimitSwitch
use alpr_li_dar_gate_automat.Drivers.LimitSwitch.{LimitSwitch}
use alpr_li_dar_gate_automat.Drivers.SafetyBeam
use alpr_li_dar_gate_automat.Drivers.SafetyBeam.{SafetyBeam}
use alpr_li_dar_gate_automat.Drivers.StatusLed
use alpr_li_dar_gate_automat.Drivers.StatusLed.{StatusLed, Pattern}
use alpr_li_dar_gate_automat.Control.Controller.{
  GateController, Stimulus, poll_limit_open, poll_limit_closed, poll_beam, watchdog_fires,
  autoclose_fires, calls_open, calls_close, calls_stop, calls_clear_fault, shows_led, pumps, EspErr,
  esp_ok, esp_err_invalid_state, esp_err_no_mem,
}
use alpr_li_dar_gate_automat.Control.Effects.{post, pump, resolve_boot_position}

module _ {T : TimerApi} {Q : QueueApi Event} where
  -- An edge is posted only once the callbacks are registered.
  unfoldable pub post_edge : GateController T Q → Option Bool → Event → Event → GateController T Q
  unfolding post
  post_edge c none up down = c
  post_edge c (some edge) up down = if c.registered then post c (if edge then up else down) else c

  unfoldable pub on_poll_limit_open : GateController T Q → ℕ → GateController T Q
  unfolding post_edge
  on_poll_limit_open c raw =
      let (s, edge) = LimitSwitch.on_poll c.limit_open raw in
      post_edge (record c { limit_open = s }) edge limit_open_hit limit_open_released

  unfoldable pub on_poll_limit_closed : GateController T Q → ℕ → GateController T Q
  unfolding post_edge
  on_poll_limit_closed c raw =
      let (s, edge) = LimitSwitch.on_poll c.limit_closed raw in
      post_edge (record c { limit_closed = s }) edge limit_closed_hit limit_closed_released

  unfoldable pub on_poll_beam : GateController T Q → ℕ → GateController T Q
  unfolding post_edge
  on_poll_beam c raw =
      let (b, edge) = SafetyBeam.on_poll c.beam raw in
      post_edge (record c { beam = b }) edge safety_beam_tripped safety_beam_cleared

  unfoldable pub on_watchdog : GateController T Q → GateController T Q
  on_watchdog c = post (record c { watchdog_timer = T.expire c.watchdog_timer }) motor_timeout

  unfoldable pub on_autoclose : GateController T Q → GateController T Q
  on_autoclose c = post (record c { autoclose_timer = T.expire c.autoclose_timer }) command_close

  unfoldable pub step : GateController T Q → Stimulus → GateController T Q
  unfolding on_poll_limit_open on_poll_limit_closed on_poll_beam on_watchdog on_autoclose
  step c (poll_limit_open raw) = on_poll_limit_open c raw
  step c (poll_limit_closed raw) = on_poll_limit_closed c raw
  step c (poll_beam raw) = on_poll_beam c raw
  step c watchdog_fires = if T.is_active c.watchdog_timer then on_watchdog c else c
  step c autoclose_fires = if T.is_active c.autoclose_timer then on_autoclose c else c
  step c calls_open = post c command_open
  step c calls_close = post c command_close
  step c calls_stop = post c command_stop
  step c calls_clear_fault = post c fault_cleared
  step c (shows_led p) = record c { led = StatusLed.render c.led p }
  step c pumps = (pump c).0

  unfoldable pub run : GateController T Q → List Stimulus → GateController T Q
  run c [] = c
  run c (s ∷ ss) = run (step c s) ss

  -- A poll while `start` waits for the inputs to settle: no callback is registered yet.
  unfoldable pub settle : GateController T Q → List Stimulus → GateController T Q
  unfolding on_poll_limit_open on_poll_limit_closed on_poll_beam
  settle c [] = c
  settle c (poll_limit_open raw ∷ ss) = settle (on_poll_limit_open c raw) ss
  settle c (poll_limit_closed raw ∷ ss) = settle (on_poll_limit_closed c raw) ss
  settle c (poll_beam raw ∷ ss) = settle (on_poll_beam c raw) ss
  settle c (_ ∷ ss) = settle c ss

  unfoldable pub prelatch : GateController T Q → GateController T Q
  prelatch c =
      if SafetyBeam.is_blocked c.beam
      then record c { sm = (handle c.sm safety_beam_tripped).0 }
      else c

  -- `polls` happen during `vTaskDelay`; `task_created` is the result of `xTaskCreate`.
  unfoldable pub start : GateController T Q → List Stimulus → Bool → GateController T Q × EspErr
  unfolding settle prelatch
  start c polls task_created =
      if c.started
      then (c, esp_err_invalid_state)
      else let c' = resolve_boot_position (prelatch (settle (record c { started = true }) polls)) in
        (record c' { registered = true }, if task_created then esp_ok else esp_err_no_mem)
