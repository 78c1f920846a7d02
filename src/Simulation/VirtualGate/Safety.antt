-- ===== src/Simulation/VirtualGate/Safety.antt =====
-- Every call of the simulated gate keeps it valid.
use alpr_li_dar_gate_automat.Machine.Types.{
  Event, Outputs, command_open, safety_beam_cleared, safety_beam_tripped,
}
use alpr_li_dar_gate_automat.Base.{
  ◌+◌, ap, sym, ◌∙◌, if◌then◌else◌, Bool-cases, arith, inl, inr, true, ℕ, ◌≡◌, ◌≢◌,
}
use alpr_li_dar_gate_automat.Simulation.VirtualGate.Depth.{
  machine-carried, carried, step_locked_lem, applied,
}
use alpr_li_dar_gate_automat.Simulation.VirtualGate.{
  close_refused, reverses, step_locked, VirtualGate,
}
use alpr_li_dar_gate_automat.Machine.{handle}
use alpr_li_dar_gate_automat.Machine.Graph.{handle-IsReport}
use alpr_li_dar_gate_automat.Simulation.VirtualGate.Invariant.{
  HoldsSince, IsReady, carried-HoldsSince,
}

module _ (since : ℕ) where
  pub holds-IsReady :
      (g : VirtualGate) (ev : Event)
      → ev ≢ safety_beam_tripped
      → ev ≢ safety_beam_cleared
      → HoldsSince since g
      → IsReady since g ev
  holds-IsReady g ev t c v = record {
    machine_valid = v.machine_valid;
    driven_right = v.driven_right;
    watched = inl v.watched;
    beam_known = ground (arith, v.beam_known);
    in_range = v.in_range;
    patient = v.patient;
    past = v.past;
  }

  refused-HoldsSince :
      (g : VirtualGate) (out : Outputs)
      → HoldsSince since g
      → out.new_state ≡ g.machine.state
      → close_refused g out ≡ true
      → HoldsSince since (record g { autoclose_deadline = g.now_ms + g.cfg.auto_close_ms })
  refused-HoldsSince g out v n h = record {
    machine_valid = v.machine_valid;
    driven_right = record { opens = v.driven_right.opens; closes = v.driven_right.closes };
    watched = record {
      ahead = v.watched.ahead;
      off = v.watched.off;
      counting = λ e. ground (arith, h);
      resting = λ e. ground (arith, n, h, e);
    };
    beam_known = v.beam_known;
    in_range = v.in_range;
    patient = v.patient;
    past = v.past;
  }

  applied-HoldsSince :
      (g : VirtualGate) (out : Outputs)
      → HoldsSince since g
      → out.new_state ≡ g.machine.state
      → HoldsSince since (applied g out)
  unfolding applied
  applied-HoldsSince g out v n = elim (Bool-cases (reverses g out)) [
    | inl e ↦
        rw (e, if◌then◌else◌)
          (carried-HoldsSince since g command_open
            (holds-IsReady g command_open (λ h. cc) (λ h. cc) v))
    | inr e ↦ elim (Bool-cases (close_refused g out)) [
      | inl f ↦ rw (e, f, if◌then◌else◌) (refused-HoldsSince g out v n f)
      | inr f ↦ rw (e, f, if◌then◌else◌) v
    ]
  ]

  pub step-HoldsSince :
      (g : VirtualGate) (ev : Event) → IsReady since g ev → HoldsSince since (step_locked g ev)
  step-HoldsSince g ev v = rw (step_locked_lem g ev) (
      applied-HoldsSince (carried g (handle g.machine ev)) (handle g.machine ev).1
        (carried-HoldsSince since g ev v)
        ((handle-IsReport g.machine ev v.machine_valid).names_state
          ∙ ap (λ m. m.state) (sym (machine-carried g (handle g.machine ev)))))
