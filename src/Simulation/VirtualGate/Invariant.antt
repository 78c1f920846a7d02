-- ===== src/Simulation/VirtualGate/Invariant.antt =====
-- What holds of the simulated gate between two calls.
use alpr_li_dar_gate_automat.Simulation.VirtualGate.Depth.{carried}
use alpr_li_dar_gate_automat.Base.{
  ap, if◌then◌else◌, ltb, ℕ, ◌&&◌, ◌∙◌, not, Bool, Bool-cases, arith, false, inl, inr, true, ◌+◌,
  ◌<◌, ◌||◌, ◌≡◌, ◌≤◌, ◌⊎◌,
}
use alpr_li_dar_gate_automat.Simulation.VirtualGate.{
  record_ack, tell_tracker, set_deadlines, set_motors, carry_out, drive, VirtualGate, drive_all,
}
use alpr_li_dar_gate_automat.Machine.Types.{
  Outputs, safety_beam_cleared, safety_beam_tripped, Event, state_eq, State, closing, faulted,
  initializing, opened, opening,
}
use alpr_li_dar_gate_automat.Machine.{StateMachine, handle}
use alpr_li_dar_gate_automat.Machine.Invariant
use alpr_li_dar_gate_automat.Machine.Graph.{entry_actions, handle-IsReport}

abbrev pub moves : State → Bool
moves s = state_eq s opening || state_eq s closing

-- The motors run as the state says.
pub record IsDriven (g : VirtualGate) : Type 0 where
  pub opens : g.motor_open ≡ state_eq g.machine.state opening
  pub closes : g.motor_close ≡ state_eq g.machine.state closing

-- The auto-close is asked for in Open, with an auto-close time above 0.
abbrev pub recloses : State → ℕ → Bool
recloses s auto = state_eq s opened && ltb 0 auto

-- A moving gate has its watchdog later than `since` and within the time-out, and a resting one has
-- none; the countdown is set, within the auto-close time, exactly where the auto-close is asked for.
pub record IsWatched (s : State) (since now timeout auto watchdog autoclose : ℕ) : Type 0 where
  pub ahead : moves s ≡ true → (since < watchdog) × (watchdog ≤ now + timeout)
  pub off : moves s ≡ false → watchdog ≡ 0
  pub counting : recloses s auto ≡ true → (0 < autoclose) × (autoclose ≤ now + auto)
  pub resting : recloses s auto ≡ false → autoclose ≡ 0

abbrev pub Watched : ℕ → VirtualGate → Type 0
Watched since g =
    IsWatched g.machine.state since g.now_ms g.cfg.motor_timeout_ms g.cfg.auto_close_ms
      g.watchdog_deadline g.autoclose_deadline

entered-IsDriven :
    (s : State) (motors : Bool × Bool)
    → (s ≡ initializing → motors ≡ (false, false))
    → drive_all motors (entry_actions s) ≡ (state_eq s opening, state_eq s closing)
unfolding drive_all drive
entered-IsDriven s motors h = ground arith

initializing_from :
    (m : StateMachine) (ev : Event)
    → (handle m ev).1.transitioned ≡ true
    → (handle m ev).0.state ≡ initializing
    → m.state ≡ faulted
unfolding handle
initializing_from m ev h k = ground arith

driven :
    (g : VirtualGate) (ev : Event)
    → Invariant.IsValid g.machine
    → IsDriven g
    → let (m, out) = handle g.machine ev in
      drive_all (g.motor_open, g.motor_close) out.actions
      ≡ (state_eq m.state opening, state_eq m.state closing)
unfolding drive_all drive
driven g ev v d =
    let r = handle-IsReport g.machine ev v in
    elim (Bool-cases (handle g.machine ev).1.transitioned) [
      | inl t ↦ rw (r.moved t).2 (
          entered-IsDriven (handle g.machine ev).0.state (g.motor_open, g.motor_close)
            (λ e. ground (arith, initializing_from g.machine ev t e)))
      | inr f ↦ ground (arith, r.stayed f)
    ]

-- The gate as it is when the deadlines were last looked at the time `since`.
pub record HoldsSince (since : ℕ) (g : VirtualGate) : Type 0 where
  pub machine_valid : Invariant.IsValid g.machine
  pub driven_right : IsDriven g
  pub watched : Watched since g
  pub beam_known : g.machine.beam_clear ≡ not g.beam_blocked
  pub in_range : g.position_ms ≤ g.cfg.travel_ms
  pub patient : 0 < g.cfg.motor_timeout_ms
  pub past : since ≤ g.now_ms

-- Between two calls.
abbrev pub IsValid : VirtualGate → Type 0
IsValid g = HoldsSince g.now_ms g

pub beam-handle :
    (m : StateMachine) (ev : Event)
    → (handle m ev).0.beam_clear
      ≡ elim ev [ safety_beam_tripped ↦ false | safety_beam_cleared ↦ true | _ ↦ m.beam_clear ]
unfolding handle
beam-handle m ev = ground arith

-- A transition sets both deadlines; without one they stay.
pub deadlines-IsWatched :
    (since now timeout auto watchdog autoclose : ℕ) (s s' : State) (out : Outputs)
    → 0 < timeout
    → since ≤ now
    → out.new_state ≡ s'
    → (out.transitioned ≡ false → s' ≡ s)
    → IsWatched s since now timeout auto watchdog autoclose ⊎ (out.transitioned ≡ true)
    → let moving = state_eq out.new_state opening || state_eq out.new_state closing in
      let counts = state_eq out.new_state opened && ltb 0 auto in
      IsWatched s' since now timeout auto
        (if out.transitioned then (if moving then now + timeout else 0) else watchdog)
        (if out.transitioned then (if counts then now + auto else 0) else autoclose)
deadlines-IsWatched since now timeout auto watchdog autoclose s s' out p q n k w = record {
  ahead = λ h. ground (arith, n, k, w, h);
  off = λ h. ground (arith, n, k, w, h);
  counting = λ h. ground (arith, n, k, w, h);
  resting = λ h. ground (arith, n, k, w, h);
}

carried-IsWatched :
    (since : ℕ) (g : VirtualGate) (ev : Event)
    → Invariant.IsValid g.machine
    → 0 < g.cfg.motor_timeout_ms
    → since ≤ g.now_ms
    → Watched since g ⊎ ((handle g.machine ev).1.transitioned ≡ true)
    → Watched since (carried g (handle g.machine ev))
unfolding carried carry_out set_motors set_deadlines tell_tracker record_ack
carried-IsWatched since g ev v p q w =
    let r = handle-IsReport g.machine ev v in
    deadlines-IsWatched since g.now_ms g.cfg.motor_timeout_ms g.cfg.auto_close_ms
      g.watchdog_deadline g.autoclose_deadline g.machine.state (handle g.machine ev).0.state
      (handle g.machine ev).1 p q r.names_state (λ f. (r.stayed f).0) w

-- What a step asks of a gate: all but the deadlines, which a transition sets anew.
pub record IsReady (since : ℕ) (g : VirtualGate) (ev : Event) : Type 0 where
  pub machine_valid : Invariant.IsValid g.machine
  pub driven_right : IsDriven g
  pub watched : Watched since g ⊎ ((handle g.machine ev).1.transitioned ≡ true)
  pub beam_known :
      elim ev [
        | safety_beam_tripped ↦ false
        | safety_beam_cleared ↦ true
        | _ ↦ g.machine.beam_clear
      ]
      ≡ not g.beam_blocked
  pub in_range : g.position_ms ≤ g.cfg.travel_ms
  pub patient : 0 < g.cfg.motor_timeout_ms
  pub past : since ≤ g.now_ms

pub carried-HoldsSince :
    (since : ℕ) (g : VirtualGate) (ev : Event)
    → IsReady since g ev
    → HoldsSince since (carried g (handle g.machine ev))
unfolding carried carry_out set_motors set_deadlines tell_tracker record_ack
carried-HoldsSince since g ev v = record {
  machine_valid = Invariant.handle-IsValid g.machine ev v.machine_valid;
  driven_right =
      let d = driven g ev v.machine_valid v.driven_right in
      record { opens = ap (λ m. m.0) d; closes = ap (λ m. m.1) d };
  watched = carried-IsWatched since g ev v.machine_valid v.patient v.past v.watched;
  beam_known = beam-handle g.machine ev ∙ v.beam_known;
  in_range = v.in_range;
  patient = v.patient;
  past = v.past;
}
