-- ===== src/Drivers/LimitSwitch.antt =====
-- limit_switch.cpp: a position switch behind the debouncer. `raw` is what `gpio_get_level` reads.
use alpr_li_dar_gate_automat.Base.{true, ℕ, Bool, Option, ◌==◌, if◌then◌else◌}
use alpr_li_dar_gate_automat.Drivers.Debounce
use alpr_li_dar_gate_automat.Drivers.Debounce.{Debouncer}

pub record Config : Type 0 where
  pub normally_open : Bool
  pub debounce_ms : ℕ  -- uint32_t
  pub poll_period_ms : ℕ  -- uint32_t

-- The defaults of the configuration.
abbrev pub default_config : Config
default_config = record { normally_open = true; debounce_ms = 20; poll_period_ms = 5 }

pub record LimitSwitch : Type 0 where
  pub cfg : Config
  pub input : Debouncer

unfoldable pub read_active : Config → ℕ → Bool
read_active cfg raw = if cfg.normally_open then raw == 0 else raw == 1

unfoldable pub new : Config → ℕ → LimitSwitch
unfolding read_active Debounce.new
new cfg raw = record {
  cfg = cfg;
  input = Debounce.new cfg.debounce_ms cfg.poll_period_ms (read_active cfg raw);
}

abbrev pub is_active : LimitSwitch → Bool
is_active s = s.input.active

unfoldable pub on_poll : LimitSwitch → ℕ → LimitSwitch × Option Bool
unfolding read_active
on_poll s raw =
    let (input, edge) = Debounce.poll s.input (read_active s.cfg raw) in
    (record s { input = input }, edge)
