-- ===== src/Simulation/VirtualGate/Boots.antt =====
-- Boots of the simulated gate: they leave it standing, whatever it did before.
use alpr_li_dar_gate_automat.Simulation.VirtualGate.Safety.{step-HoldsSince, holds-IsReady}
use alpr_li_dar_gate_automat.Simulation.VirtualGate.Depth.{step-IsFramed, settle_boot, carried}
use alpr_li_dar_gate_automat.Machine.Types.{
  Config, Event, fault_cleared, initializing, safety_beam_cleared, safety_beam_tripped, state_eq,
  stopped_close, Outputs,
}
use alpr_li_dar_gate_automat.Simulation.VirtualGate.{
  record_ack, tell_tracker, set_deadlines, set_motors, carry_out, machine_config, step_locked,
  settle, resolve_position, reboot, clear_fault, drive, VirtualGate, drive_all,
}
use alpr_li_dar_gate_automat.Base.{
  ap, refl, subst, sym, ◌∙◌, ◌≢◌, if◌then◌else◌, Bool-cases, arith, inl, inr, leb, not, ◌<◌, ◌≤◌,
  Bool, false, true, ◌≡◌,
}
use alpr_li_dar_gate_automat.Machine.{handle, StateMachine, init_closed, init_open, init_unknown}
use alpr_li_dar_gate_automat.Machine
use alpr_li_dar_gate_automat.Simulation.VirtualGate.{boot_closed}
use alpr_li_dar_gate_automat.Machine.Invariant
use alpr_li_dar_gate_automat.Simulation.VirtualGate.Invariant.{
  deadlines-IsWatched, beam-handle, IsValid, HoldsSince, IsReady, moves,
}

-- What a boot makes of a machine: it stops the motor and does not touch the beam latch.
record IsBoot (m : StateMachine) (r : StateMachine × Outputs) : Type 0 where
  pub booted : Invariant.IsValid r.0
  pub moved : r.1.transitioned ≡ true
  pub still : moves r.0.state ≡ false
  pub named : r.1.new_state ≡ r.0.state
  pub unpaused : state_eq r.1.new_state stopped_close ≡ false
  pub left : (b : Bool × Bool) → drive_all b r.1.actions ≡ (false, false)
  pub latched : r.0.beam_clear ≡ m.beam_clear

init_closed-IsBoot : (m : StateMachine) → IsBoot m (init_closed m)
unfolding init_closed drive_all drive
init_closed-IsBoot m = ground arith

init_open-IsBoot : (m : StateMachine) → IsBoot m (init_open m)
unfolding init_open drive_all drive
init_open-IsBoot m = ground arith

init_unknown-IsBoot : (m : StateMachine) → IsBoot m (init_unknown m)
unfolding init_unknown drive_all drive
init_unknown-IsBoot m = ground arith

booted-IsValid :
    (g : VirtualGate) (r : StateMachine × Outputs)
    → IsBoot g.machine r
    → g.machine.beam_clear ≡ not g.beam_blocked
    → g.position_ms ≤ g.cfg.travel_ms
    → 0 < g.cfg.motor_timeout_ms
    → IsValid (carried g r)
unfolding carried carry_out set_motors set_deadlines tell_tracker record_ack
booted-IsValid g r b beam range patient =
    let l = b.left (g.motor_open, g.motor_close) in
    record {
      machine_valid = b.booted;
      driven_right = record {
        opens = ap (λ m. m.0) l ∙ ground (arith, b.still);
        closes = ap (λ m. m.1) l ∙ ground (arith, b.still);
      };
      watched =
          deadlines-IsWatched g.now_ms g.now_ms g.cfg.motor_timeout_ms g.cfg.auto_close_ms
            g.watchdog_deadline g.autoclose_deadline g.machine.state r.0.state r.1 patient
            (omega arith) b.named (λ f. absurd (ground (arith, f, b.moved))) (inr b.moved);
      beam_known = b.latched ∙ beam;
      in_range = range;
      patient = patient;
      past = omega arith;
    }

settle-IsValid :
    (g : VirtualGate) (r : StateMachine × Outputs)
    → IsBoot g.machine r
    → g.machine.beam_clear ≡ not g.beam_blocked
    → g.position_ms ≤ g.cfg.travel_ms
    → 0 < g.cfg.motor_timeout_ms
    → IsValid (settle g r)
settle-IsValid g r b beam range patient =
    rw (settle_boot g r b.moved b.unpaused) (booted-IsValid g r b beam range patient)

pub resolve_position-IsValid :
    (g : VirtualGate)
    → g.machine.beam_clear ≡ not g.beam_blocked
    → g.position_ms ≤ g.cfg.travel_ms
    → 0 < g.cfg.motor_timeout_ms
    → IsValid (resolve_position g)
unfolding resolve_position
resolve_position-IsValid g beam range patient = elim (Bool-cases (leb g.position_ms 0)) [
  | inl e ↦
      rw (e, if◌then◌else◌) (settle-IsValid g _ (init_closed-IsBoot g.machine) beam range patient)
  | inr e ↦ elim (Bool-cases (leb g.cfg.travel_ms g.position_ms)) [
    | inl f ↦
        rw (e, f, if◌then◌else◌)
          (settle-IsValid g _ (init_open-IsBoot g.machine) beam range patient)
    | inr f ↦
        rw (e, f, if◌then◌else◌)
          (settle-IsValid g _ (init_unknown-IsBoot g.machine) beam range patient)
  ]
]

pub stepped-IsValid :
    (g : VirtualGate) (ev : Event) → IsReady g.now_ms g ev → IsValid (step_locked g ev)
stepped-IsValid g ev v =
    subst (λ t. HoldsSince t (step_locked g ev)) (sym (step-IsFramed g ev).same_time)
      (step-HoldsSince g.now_ms g ev v)

pub plain-IsValid :
    (g : VirtualGate) (ev : Event)
    → ev ≢ safety_beam_tripped
    → ev ≢ safety_beam_cleared
    → IsValid g
    → IsValid (step_locked g ev)
plain-IsValid g ev t c v = stepped-IsValid g ev (holds-IsReady g.now_ms g ev t c v)

pub boot_closed-IsValid : (g : VirtualGate) → IsValid g → IsValid (boot_closed g)
unfolding boot_closed
boot_closed-IsValid g v =
    settle-IsValid (record g { position_ms = 0 }) _ (init_closed-IsBoot g.machine) v.beam_known
      (omega arith) v.patient

pub clear_fault-IsValid : (g : VirtualGate) → IsValid g → IsValid (clear_fault g)
unfolding clear_fault
clear_fault-IsValid g v =
    let g' = step_locked g fault_cleared in
    let v' = plain-IsValid g fault_cleared (λ h. cc) (λ h. cc) v in
    elim (Bool-cases (state_eq g'.machine.state initializing)) [
      | inl e ↦
          rw (e, if◌then◌else◌) (resolve_position-IsValid g' v'.beam_known v'.in_range v'.patient)
      | inr e ↦ rw (e, if◌then◌else◌) v'
    ]

rebooted_beam :
    (c : Config) (blocked : Bool)
    → (if blocked then (handle (Machine.new c) safety_beam_tripped).0 else Machine.new c).beam_clear
      ≡ not blocked
unfolding Machine.new
rebooted_beam c true = beam-handle (Machine.new c) safety_beam_tripped
rebooted_beam c false = refl

pub reboot-IsValid : (g : VirtualGate) → IsValid g → IsValid (reboot g)
unfolding reboot
reboot-IsValid g v =
    resolve_position-IsValid _ (rebooted_beam (machine_config g.cfg) g.beam_blocked) v.in_range
      v.patient
