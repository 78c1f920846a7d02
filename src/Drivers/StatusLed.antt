-- ===== src/Drivers/StatusLed.antt =====
-- status_led.cpp: the three-colour status LED, animated by a 100 ms periodic timer.
use alpr_li_dar_gate_automat.Base.{
  Bool, add32, false, if◌then◌else◌, leb, ltb, not, true, ℕ, ◌%◌, ◌/◌, ◌==◌,
}
use alpr_li_dar_gate_automat.Platform.Api.{TimerApi}
pub mod Frames

pub data Pattern : Type 0 where
  off auth_flash deny_flash fault_slow ota_pulse boot_ok gate_moving gate_open gate_stopped :
      Pattern

abbrev pub tick_period_us : ℕ
tick_period_us = 100_000

abbrev pub auth_flash_frames : ℕ
auth_flash_frames = 6

abbrev pub deny_flash_frames : ℕ
deny_flash_frames = 6

abbrev pub boot_ok_frames : ℕ
boot_ok_frames = 20

abbrev pub slow_blink_period : ℕ
slow_blink_period = 10

abbrev pub fast_blink_period : ℕ
fast_blink_period = 4

module _ (T : TimerApi) where
  -- The levels are those last given to `gpio_set_level`.
  pub record StatusLed : Type 0 where
    pub active_high : Bool
    pub red : ℕ
    pub green : ℕ
    pub yellow : ℕ
    pub current : Pattern
    pub restart_requested : Bool
    pub step : ℕ  -- uint32_t
    pub timer : T.Timer

module _ {T : TimerApi} where
  set_color : StatusLed T → Bool → Bool → Bool → StatusLed T
  set_color s r g y =
      let on_level : ℕ = if s.active_high then 1 else 0 in
      let off_level : ℕ = if not s.active_high then 1 else 0 in
      record s {
        red = if r then on_level else off_level;
        green = if g then on_level else off_level;
        yellow = if y then on_level else off_level;
      }

  start_timer_if_needed : StatusLed T → StatusLed T
  start_timer_if_needed s =
      if T.is_active s.timer
      then s
      else record s { timer = T.start_periodic s.timer tick_period_us }

  stop_timer : StatusLed T → StatusLed T
  stop_timer s = if T.is_active s.timer then record s { timer = T.stop s.timer } else s

  -- The constructor; the levels are 0 until `set_color` writes them.
  unfoldable pub new : Bool → StatusLed T
  unfolding set_color
  new active_high =
      set_color
        (record {
          active_high = active_high;
          red = 0;
          green = 0;
          yellow = 0;
          current = off;
          restart_requested = false;
          step = 0;
          timer = T.create;
        })
        false false false

  unfoldable pub render : StatusLed T → Pattern → StatusLed T
  unfolding set_color start_timer_if_needed stop_timer
  render s p =
      let s' = record s { current = p; restart_requested = true } in
      elim p [ off ↦ stop_timer (set_color s' false false false) | _ ↦ start_timer_if_needed s' ]

  -- `restart_requested_.exchange(false)`.
  restart : StatusLed T → StatusLed T
  restart s = if s.restart_requested then record s { restart_requested = false; step = 0 } else s

  -- A branch that ends with `break` goes on to `++step_`; one that returns does not.
  advance : StatusLed T → StatusLed T
  advance s = record s { step = add32 s.step 1 }

  finish : StatusLed T → StatusLed T
  unfolding set_color stop_timer
  finish s = stop_timer (set_color s false false false)

  draw : StatusLed T → Pattern → StatusLed T
  unfolding set_color stop_timer advance finish
  draw s off = finish s
  draw s boot_ok =
      if leb boot_ok_frames s.step then finish s else advance (set_color s false true false)
  draw s auth_flash =
      if leb auth_flash_frames s.step
      then finish s
      else advance (set_color s false (s.step % 2 == 0) false)
  draw s deny_flash =
      if leb deny_flash_frames s.step
      then finish s
      else advance (set_color s (s.step % 2 == 0) false false)
  draw s fault_slow =
      advance (set_color s (ltb (s.step % slow_blink_period) (slow_blink_period / 2)) false false)
  draw s ota_pulse =
      advance (set_color s false false (ltb (s.step % slow_blink_period) (slow_blink_period / 2)))
  draw s gate_moving =
      advance (set_color s false false (ltb (s.step % fast_blink_period) (fast_blink_period / 2)))
  draw s gate_open = stop_timer (set_color s false true false)
  draw s gate_stopped = advance (
      if ltb (s.step % slow_blink_period) (slow_blink_period / 2)
      then set_color s true false false
      else set_color s false false true)

  unfoldable pub on_tick : StatusLed T → StatusLed T
  unfolding restart draw
  on_tick s = let s' = restart s in draw s' s'.current
