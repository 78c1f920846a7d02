-- ===== src/Drivers/Relay.antt =====
-- relay.cpp: a relay output with a latched mode (`set`) and a one-shot mode (`pulse`).
use alpr_li_dar_gate_automat.Base.{Bool, bool_eq, false, if◌then◌else◌, true, ℕ, ◌*◌}
use alpr_li_dar_gate_automat.Platform.Api.{TimerApi}
pub mod Contact

pub record Config : Type 0 where
  pub active_high : Bool
  pub initial_state : Bool

-- The defaults of the configuration.
abbrev pub default_config : Config
default_config = record { active_high = true; initial_state = false }

module _ (T : TimerApi) where
  -- `level` is the level last given to `gpio_set_level`.
  pub record Relay : Type 0 where
    pub cfg : Config
    pub state : Bool
    pub level : ℕ
    pub pulse_timer : T.Timer

module _ {T : TimerApi} where
  write_gpio : Relay T → Bool → Relay T
  write_gpio r on = record r { level = if bool_eq on r.cfg.active_high then 1 else 0 }

  unfoldable pub set : Relay T → Bool → Relay T
  unfolding write_gpio
  set r on = write_gpio (record r { pulse_timer = T.stop r.pulse_timer; state = on }) on

  -- The members before the constructor's `set`; no level is written yet.
  abbrev pub unwritten : Config → Relay T
  unwritten cfg = record { cfg = cfg; state = false; level = 0; pulse_timer = T.create }

  unfoldable pub new : Config → Relay T
  unfolding set
  new cfg = set (unwritten cfg) cfg.initial_state

  -- A duration in milliseconds.
  unfoldable pub pulse : Relay T → ℕ → Relay T
  unfolding write_gpio
  pulse r ms =
      let r' = write_gpio (record r { pulse_timer = T.stop r.pulse_timer; state = true }) true in
      record r' { pulse_timer = T.start_once r'.pulse_timer (ms * 1000) }

  -- The pulse timer has fired.
  unfoldable pub timer_cb : Relay T → Relay T
  unfolding write_gpio
  timer_cb r = write_gpio (record r { pulse_timer = T.expire r.pulse_timer; state = false }) false
