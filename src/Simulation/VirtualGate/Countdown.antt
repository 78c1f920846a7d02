-- ===== src/Simulation/VirtualGate/Countdown.antt =====
-- The countdown of the simulated gate on a command to close.
use alpr_li_dar_gate_automat.Base.{
  ap, refl, sym, ◌∙◌, if◌then◌else◌, Bool-cases, arith, inl, inr, true, false, ℕ, ◌<◌, ◌+◌, ◌≡◌,
}
use alpr_li_dar_gate_automat.Control.Timers.{IsRefusal, refused_close}
use alpr_li_dar_gate_automat.Machine.{handle, StateMachine}
use alpr_li_dar_gate_automat.Machine.Types.{Outputs, command_close}
use alpr_li_dar_gate_automat.Simulation.VirtualGate.{
  VirtualGate, carry_out, set_motors, set_deadlines, tell_tracker, record_ack, step_locked,
  reverses, close_refused,
}
use alpr_li_dar_gate_automat.Simulation.VirtualGate.Depth.{carried, applied, step_locked_lem}
use alpr_li_dar_gate_automat.Simulation.VirtualGate.Invariant.{recloses}

transition_overwrites :
    (g : VirtualGate) (deadline : ℕ) (r : StateMachine × Outputs)
    → r.1.transitioned ≡ true
    → carried (record g { autoclose_deadline = deadline }) r ≡ carried g r
unfolding carried carry_out set_motors set_deadlines tell_tracker record_ack
transition_overwrites g deadline r t = rw t refl

refused_lem :
    (g : VirtualGate) (out : Outputs)
    → IsRefusal out
    → 0 < g.cfg.auto_close_ms
    → applied g out ≡ record g { autoclose_deadline = g.now_ms + g.cfg.auto_close_ms }
unfolding applied
refused_lem g out refusal h =
    let e : reverses g out ≡ false = ground arith in
    let f : close_refused g out ≡ true = ground arith in rw (e, f, if◌then◌else◌)

refusal_overwrites :
    (g : VirtualGate) (deadline : ℕ) (r : StateMachine × Outputs)
    → IsRefusal r.1
    → 0 < g.cfg.auto_close_ms
    → applied (carried (record g { autoclose_deadline = deadline }) r) r.1
      ≡ applied (carried g r) r.1
unfolding carried carry_out set_motors set_deadlines tell_tracker record_ack
refusal_overwrites g deadline r refusal h =
    refused_lem (carried (record g { autoclose_deadline = deadline }) r) r.1 refusal h
    ∙ sym (refused_lem (carried g r) r.1 refusal h)

-- From Open, with an auto-close time, a command to close sets the countdown anew.
pub close_overwrites :
    (g : VirtualGate) (deadline : ℕ)
    → recloses g.machine.state g.cfg.auto_close_ms ≡ true
    → step_locked (record g { autoclose_deadline = deadline }) command_close
      ≡ step_locked g command_close
close_overwrites g deadline h =
    let g' = record g { autoclose_deadline = deadline } in
    let r = handle g.machine command_close in
    let same : applied (carried g' r) r.1 ≡ applied (carried g r) r.1 =
      elim (Bool-cases r.1.transitioned) [
        | inl t ↦ ap (λ x. applied x r.1) (transition_overwrites g deadline r t)
        | inr f ↦
            refusal_overwrites g deadline r
              (refused_close g.machine command_close refl (ground (arith, h)) f) (ground (arith, h))
      ] in
    step_locked_lem g' command_close ∙ same ∙ sym (step_locked_lem g command_close)
