-- ===== src/Drivers/SafetyBeam.antt =====
-- safety_beam.cpp: the IR beam receiver behind the debouncer. `raw` is what `gpio_get_level` reads.
use alpr_li_dar_gate_automat.Base.{true, ℕ, Bool, Option, ◌==◌, if◌then◌else◌}
use alpr_li_dar_gate_automat.Drivers.Debounce
use alpr_li_dar_gate_automat.Drivers.Debounce.{Debouncer}

pub record Config : Type 0 where
  pub active_high_when_blocked : Bool
  pub debounce_ms : ℕ  -- uint32_t
  pub poll_period_ms : ℕ  -- uint32_t

-- The defaults of the configuration.
abbrev pub default_config : Config
default_config = record { active_high_when_blocked = true; debounce_ms = 5; poll_period_ms = 1 }

pub record SafetyBeam : Type 0 where
  pub cfg : Config
  pub input : Debouncer

unfoldable pub read_blocked : Config → ℕ → Bool
read_blocked cfg raw = if cfg.active_high_when_blocked then raw == 1 else raw == 0

unfoldable pub new : Config → ℕ → SafetyBeam
unfolding read_blocked Debounce.new
new cfg raw = record {
  cfg = cfg;
  input = Debounce.new cfg.debounce_ms cfg.poll_period_ms (read_blocked cfg raw);
}

abbrev pub is_blocked : SafetyBeam → Bool
is_blocked b = b.input.active

unfoldable pub on_poll : SafetyBeam → ℕ → SafetyBeam × Option Bool
unfolding read_blocked
on_poll b raw =
    let (input, edge) = Debounce.poll b.input (read_blocked b.cfg raw) in
    (record b { input = input }, edge)
