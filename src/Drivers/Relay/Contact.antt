-- ===== src/Drivers/Relay/Contact.antt =====
-- The contact that a relay's output level drives.
use alpr_li_dar_gate_automat.Base.{
  Bool, List, [], arith, bool_eq, false, if◌then◌else◌, true, ℕ, ◌*◌, ◌==◌, ◌∷◌, ◌≡◌,
}
use alpr_li_dar_gate_automat.Platform.Api.{TimerApi}
use alpr_li_dar_gate_automat.Drivers.Relay
use alpr_li_dar_gate_automat.Drivers.Relay.{
  unwritten, Bool, if◌then◌else◌, ℕ, Relay, set, pulse, timer_cb, new,
}

-- What happens to a relay.
pub data Op : Type 0 where
  sets : Bool → Op
  pulses : ℕ → Op
  fires : Op

module _ {T : TimerApi} where
  -- The coil is energised when the pin is at the active level.
  abbrev pub energised : Relay T → Bool
  energised r = bool_eq (r.level == 1) r.cfg.active_high

  -- The software state is the state of the coil, and a pulse is pending only while it is on.
  pub record IsValid (r : Relay T) : Type 0 where
    pub truthful : energised r ≡ r.state
    pub pulsing : T.is_active r.pulse_timer ≡ true → r.state ≡ true

  -- The pulse timer fires only while it runs.
  unfoldable pub apply : Relay T → Op → Relay T
  apply r (sets on) = set r on
  apply r (pulses ms) = pulse r ms
  apply r fires = if T.is_active r.pulse_timer then timer_cb r else r

  unfoldable pub apply_all : Relay T → List Op → Relay T
  apply_all r [] = r
  apply_all r (op ∷ ops) = apply_all (apply r op) ops

  pub set-IsValid : (r : Relay T) (on : Bool) → IsValid (set r on)
  unfolding set
  set-IsValid r on = ground (arith, T.stop_inactive r.pulse_timer)

  pulse-IsValid : (r : Relay T) (ms : ℕ) → IsValid (pulse r ms)
  unfolding pulse
  pulse-IsValid r ms = ground arith

  timer_cb-IsValid : (r : Relay T) → IsValid (timer_cb r)
  unfolding timer_cb
  timer_cb-IsValid r = ground (arith, T.expire_inactive r.pulse_timer)

  apply-IsValid : (r : Relay T) (op : Op) → IsValid r → IsValid (apply r op)
  unfolding apply
  apply-IsValid r (sets on) v = set-IsValid r on
  apply-IsValid r (pulses ms) v = pulse-IsValid r ms
  apply-IsValid r fires v = ground (arith, timer_cb-IsValid r)

  apply_all-IsValid : (r : Relay T) (ops : List Op) → IsValid r → IsValid (apply_all r ops)
  unfolding apply_all
  apply_all-IsValid r [] v = v
  apply_all-IsValid r (op ∷ ops) v = apply_all-IsValid (apply r op) ops (apply-IsValid r op v)

  pub new-IsValid : (cfg : Relay.Config) → IsValid (new {T = T} cfg)
  unfolding new
  new-IsValid cfg = set-IsValid (unwritten cfg) cfg.initial_state

  -- Over any wiring polarity and any sequence of sets, pulses and timer expiries, the coil is
  -- energised exactly as the driver's state says, and a pending pulse has the coil on.
  pub apply_all-new-IsValid :
      (cfg : Relay.Config) (ops : List Op) → IsValid (apply_all (new {T = T} cfg) ops)
  apply_all-new-IsValid cfg ops = apply_all-IsValid (new cfg) ops (new-IsValid cfg)

  -- A latched state stays: whatever pulse was pending before `set`, no expiry changes it after.
  pub fires-set : (r : Relay T) (on : Bool) → apply (set r on) fires ≡ set r on
  unfolding apply set
  fires-set r on = ground (arith, T.stop_inactive r.pulse_timer)

  -- A pulse ends by itself: its timer runs with the time asked for, and its expiry turns the coil off.
  pub fires-pulse :
      (r : Relay T) (ms : ℕ)
      → (energised (pulse r ms) ≡ true)
        × (energised (apply (pulse r ms) fires) ≡ false)
        × (T.is_active (apply (pulse r ms) fires).pulse_timer ≡ false)
  unfolding apply pulse timer_cb
  fires-pulse r ms = ground (
    arith,
    T.stop_inactive r.pulse_timer,
    T.start_once_active (T.stop r.pulse_timer) (ms * 1000),
    T.expire_inactive (T.start_once (T.stop r.pulse_timer) (ms * 1000)),
  )
