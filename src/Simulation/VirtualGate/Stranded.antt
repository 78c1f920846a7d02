-- ===== src/Simulation/VirtualGate/Stranded.antt =====
-- A gate that faults between its limits.
use alpr_li_dar_gate_automat.Simulation.VirtualGate.Calls.{opens, closes, stops}
use alpr_li_dar_gate_automat.Simulation.VirtualGate.{
  drain_acks, reboot, clear_beam, trip_beam, operator_stop,
}
use alpr_li_dar_gate_automat.Simulation.VirtualGate.Depth.{
  settle_boot, machine-carried, step-IsFramed, step_quiet, carried,
}
use alpr_li_dar_gate_automat.Machine.Types.{
  command_close, command_open, command_stop, safety_beam_cleared, safety_beam_tripped, state_eq,
  initializing, Reason, Event, fault_cleared, faulted,
}
use alpr_li_dar_gate_automat.Base.{
  Bool, if_true, subst, sym, true, ℕ, ap, holds_if, leb, refl, ◌∙◌, List, [], arith, false, ◌<◌,
  ◌∷◌, ◌≡◌, ◌≢◌,
}
use alpr_li_dar_gate_automat.Simulation.VirtualGate.{
  tick_tracker, check_autoclose, check_watchdog, local_close, settle, Command, Verdict, drive,
  local_open, move, CommandTracker, advance, close_gate, drive_all, issue, open_gate, record_ack,
  tell_tracker, set_deadlines, set_motors, carry_out, clear_fault, resolve_position, step_locked,
  VirtualGate,
}
use alpr_li_dar_gate_automat.Machine.{init_unknown, handle, StateMachine}
use alpr_li_dar_gate_automat.Simulation.VirtualGate.Calls.{
  advances, call, clears_beam, clears_fault, drains, issues, reboots, run, trips_beam, Call, boots,
}

-- Faulted, with the motors off and the position on neither limit.
pub record IsStranded (g : VirtualGate) : Type 0 where
  pub faulted_now : g.machine.state ≡ faulted
  pub still : (g.motor_open ≡ false) × (g.motor_close ≡ false)
  pub midway : (0 < g.position_ms) × (g.position_ms < g.cfg.travel_ms)
  pub disarmed : (g.watchdog_deadline ≡ 0) × (g.autoclose_deadline ≡ 0)

-- The calls but `boot_closed`, which puts the gate back on its limit.
abbrev pub NoBoot : List Call → Type 0
NoBoot [] = Unit {0}
NoBoot (boots ∷ cs) = ⊥
NoBoot (_ ∷ cs) = NoBoot cs

faulted-handle :
    (m : StateMachine) (ev : Event)
    → ev ≢ fault_cleared
    → m.state ≡ faulted
    → let (m', out) = handle m ev in
      (m'.state ≡ faulted)
      × (out.reason ≡ Reason.none)
      × (out.transitioned ≡ false)
      × (out.actions ≡ [])
unfolding handle
faulted-handle m ev n h = ground arith

abbrev Midway : VirtualGate → Type 0
Midway g = (0 < g.position_ms) × (g.position_ms < g.cfg.travel_ms)

carried-IsStranded :
    (g : VirtualGate) (ev : Event)
    → ev ≢ fault_cleared
    → IsStranded g
    → IsStranded (carried g (handle g.machine ev))
unfolding carried carry_out set_motors set_deadlines tell_tracker record_ack drive_all
carried-IsStranded g ev n s = ground (arith, faulted-handle g.machine ev n s.faulted_now)

step-IsStranded :
    (g : VirtualGate) (ev : Event)
    → ev ≢ fault_cleared
    → IsStranded g
    → IsStranded (step_locked g ev)
step-IsStranded g ev n s =
    rw (step_quiet g ev (faulted-handle g.machine ev n s.faulted_now).1)
      (carried-IsStranded g ev n s)

unknown-IsStranded : (g : VirtualGate) → Midway g → IsStranded (settle g (init_unknown g.machine))
unfolding init_unknown carried carry_out set_motors set_deadlines tell_tracker record_ack drive_all
    drive
unknown-IsStranded g m = rw (settle_boot g (init_unknown g.machine) refl refl) (ground arith)

resolve_position-IsStranded : (g : VirtualGate) → Midway g → IsStranded (resolve_position g)
unfolding resolve_position
resolve_position-IsStranded g m =
    holds_if IsStranded (leb g.position_ms 0) (λ e. absurd (ground (arith, e)))
      (λ _.
        holds_if IsStranded (leb g.cfg.travel_ms g.position_ms) (λ e. absurd (ground (arith, e)))
          (λ _. unknown-IsStranded g m))

cleared :
    (g : VirtualGate)
    → g.machine.state ≡ faulted
    → ((handle g.machine fault_cleared).0.state ≡ initializing)
      × ((handle g.machine fault_cleared).1.reason ≡ Reason.none)
unfolding handle
cleared g h = ground arith

clear_fault-IsStranded : (g : VirtualGate) → IsStranded g → IsStranded (clear_fault g)
unfolding clear_fault
clear_fault-IsStranded g s =
    let (state_now, reason_now) = cleared g s.faulted_now in
    let f = step-IsFramed g fault_cleared in
    let e : ((step_locked g fault_cleared).machine.state ≡ initializing) =
      rw (step_quiet g fault_cleared reason_now)
        (ap (λ m. m.state) (machine-carried g (handle g.machine fault_cleared)) ∙ state_now) in
    subst IsStranded
      (sym (
        if_true (resolve_position (step_locked g fault_cleared)) (step_locked g fault_cleared)
          (ap (λ s. state_eq s initializing) e)))
      (resolve_position-IsStranded (step_locked g fault_cleared)
        (rw (f.same_position, f.same_cfg) s.midway))

advance-IsStranded : (g : VirtualGate) (dt : ℕ) → IsStranded g → IsStranded (advance g dt)
unfolding advance move check_watchdog check_autoclose tick_tracker record_ack
advance-IsStranded g dt s =
    rw (s.still.0, s.still.1, s.disarmed.0, s.disarmed.1) (ground (arith, s))

acked :
    (g : VirtualGate) (r : CommandTracker × Verdict) → IsStranded g → IsStranded (record_ack g r)
unfolding record_ack
acked g (t, v) s = ground (arith, s)

issue-IsStranded :
    (g : VirtualGate) (id : List ℕ) (c : Command) → IsStranded g → IsStranded (issue g id c)
unfolding issue
issue-IsStranded g id open_gate s =
    step-IsStranded (record_ack g _) command_open (λ h. cc) (acked g _ s)
issue-IsStranded g id close_gate s =
    step-IsStranded (record_ack g _) command_close (λ h. cc) (acked g _ s)

beam_to : (g : VirtualGate) (b : Bool) → IsStranded g → IsStranded (record g { beam_blocked = b })
beam_to g b s = ground (arith, s)

reset_for_reboot :
    (g : VirtualGate) (m : StateMachine)
    → Midway g
    → Midway (record g {
      motor_open = false;
      motor_close = false;
      watchdog_deadline = 0;
      autoclose_deadline = 0;
      machine = m;
    })
reset_for_reboot g m h = h

call-IsStranded : (g : VirtualGate) (c : Call) → c ≢ boots → IsStranded g → IsStranded (call g c)
unfolding call local_open local_close operator_stop trip_beam clear_beam reboot drain_acks
call-IsStranded g boots n s = absurd (n refl)
call-IsStranded g opens n s = step-IsStranded g command_open (λ h. cc) s
call-IsStranded g closes n s = step-IsStranded g command_close (λ h. cc) s
call-IsStranded g stops n s = step-IsStranded g command_stop (λ h. cc) s
call-IsStranded g clears_fault n s = clear_fault-IsStranded g s
call-IsStranded g reboots n s = resolve_position-IsStranded _ s.midway
call-IsStranded g trips_beam n s =
    step-IsStranded (record g { beam_blocked = true }) safety_beam_tripped (λ h. cc)
      (beam_to g true s)
call-IsStranded g clears_beam n s =
    step-IsStranded (record g { beam_blocked = false }) safety_beam_cleared (λ h. cc)
      (beam_to g false s)
call-IsStranded g (issues id c) n s = issue-IsStranded g id c s
call-IsStranded g (advances dt) n s = advance-IsStranded g dt s
call-IsStranded g drains n s = ground (arith, s)

NoBoot-inverse : (c : Call) (cs : List Call) → NoBoot (c ∷ cs) → (c ≢ boots) × NoBoot cs
NoBoot-inverse boots cs n = absurd n
NoBoot-inverse opens cs n = (λ h. cc, n)
NoBoot-inverse closes cs n = (λ h. cc, n)
NoBoot-inverse stops cs n = (λ h. cc, n)
NoBoot-inverse clears_fault cs n = (λ h. cc, n)
NoBoot-inverse reboots cs n = (λ h. cc, n)
NoBoot-inverse trips_beam cs n = (λ h. cc, n)
NoBoot-inverse clears_beam cs n = (λ h. cc, n)
NoBoot-inverse (issues id c) cs n = (λ h. cc, n)
NoBoot-inverse (advances dt) cs n = (λ h. cc, n)
NoBoot-inverse drains cs n = (λ h. cc, n)

-- A gate that is faulted between its limits stays so, with its motors off, whatever is called but
-- `boot_closed`: clearing the fault and rebooting find no limit and fault again.
pub run-IsStranded :
    (g : VirtualGate) (cs : List Call) → NoBoot cs → IsStranded g → IsStranded (run g cs)
unfolding run
run-IsStranded g [] n s = s
run-IsStranded g (c ∷ cs) n s =
    let (other, rest) = NoBoot-inverse c cs n in
    run-IsStranded (call g c) cs rest (call-IsStranded g c other s)
