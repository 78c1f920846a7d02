-- ===== src/Simulation/VirtualGate/Depth.antt =====
-- How deep `apply_locked` and `step_locked` call each other.
use alpr_li_dar_gate_automat.Machine.Types.{
  state_eq, stopped_close, Event, Outputs, Reason, command_open,
}
use alpr_li_dar_gate_automat.Base.{
  Bool-cases, inl, inr, refl, true, sym, zero, ◌∙◌, ◌≤◌, ap, false, arith, if◌then◌else◌, suc, ℕ,
  ◌+◌, ◌≡◌,
}
use alpr_li_dar_gate_automat.Simulation.VirtualGate.{
  record_ack, tell_tracker, set_deadlines, set_motors, max_depth, settle, step_locked,
  close_refused, carry_out, reverses, VirtualGate, apply_locked,
}
use alpr_li_dar_gate_automat.Machine.{handle, StateMachine}

-- A command to open never comes back with a reason.
pub reason-command_open : (m : StateMachine) → (handle m command_open).1.reason ≡ Reason.none
unfolding handle
reason-command_open m = ground arith

-- `apply_locked` for an event, without its policies.
unfoldable pub carried : VirtualGate → StateMachine × Outputs → VirtualGate
carried g (m, out) = carry_out (record g { machine = m }) out

-- What `apply_locked` does, at any depth that is enough.
unfoldable pub applied : VirtualGate → Outputs → VirtualGate
applied g' out =
    if reverses g' out
    then carried g' (handle g'.machine command_open)
    else if close_refused g' out
    then record g' { autoclose_deadline = g'.now_ms + g'.cfg.auto_close_ms }
    else g'

quiet_policies :
    (g : VirtualGate) (out : Outputs)
    → out.reason ≡ Reason.none
    → (reverses g out ≡ false) × (close_refused g out ≡ false)
quiet_policies g out h = ground arith

apply_quiet :
    (n : ℕ) (g : VirtualGate) (out : Outputs)
    → out.reason ≡ Reason.none
    → apply_locked (suc n) g out ≡ carry_out g out
unfolding apply_locked
apply_quiet n g out h =
    let (no_reverse, no_refusal) = quiet_policies (carry_out g out) out h in
    rw (no_reverse, no_refusal, if◌then◌else◌)

pub apply_locked_lem :
    (n : ℕ) (g : VirtualGate) (out : Outputs)
    → apply_locked (suc (suc n)) g out ≡ applied (carry_out g out) out
unfolding apply_locked applied carried
apply_locked_lem n g out =
    let g' = carry_out g out in
    let (m, again) = handle g'.machine command_open in
    ap
      (λ reversed.
        if reverses g' out
        then reversed
        else if close_refused g' out
        then record g' { autoclose_deadline = g'.now_ms + g'.cfg.auto_close_ms }
        else g')
      (apply_quiet n (record g' { machine = m }) again (reason-command_open g'.machine))

-- The two functions end: a reversal is never followed by another, so from a depth of two on the
-- result is the same.
pub apply_locked_depth :
    (n : ℕ) (g : VirtualGate) (out : Outputs)
    → max_depth ≤ n
    → apply_locked n g out ≡ apply_locked max_depth g out
apply_locked_depth zero g out h = absurd (omega arith)
apply_locked_depth (suc zero) g out h = absurd (omega arith)
apply_locked_depth (suc (suc n)) g out h = apply_locked_lem n g out ∙ sym (apply_locked_lem 0 g out)

pub step_locked_lem :
    (g : VirtualGate) (ev : Event)
    → step_locked g ev ≡ applied (carried g (handle g.machine ev)) (handle g.machine ev).1
unfolding step_locked settle carried
step_locked_lem g ev =
    apply_locked_lem 0 (record g { machine = (handle g.machine ev).0 }) (handle g.machine ev).1

boot_policies :
    (g : VirtualGate) (out : Outputs)
    → out.transitioned ≡ true
    → state_eq out.new_state stopped_close ≡ false
    → applied g out ≡ g
unfolding applied
boot_policies g out t n =
    let e : (reverses g out ≡ false) = ground arith in
    let f : (close_refused g out ≡ false) = ground arith in rw (e, f, if◌then◌else◌)

-- The outputs of a boot have no policy.
pub settle_boot :
    (g : VirtualGate) (r : StateMachine × Outputs)
    → r.1.transitioned ≡ true
    → state_eq r.1.new_state stopped_close ≡ false
    → settle g r ≡ carried g r
unfolding settle carried
settle_boot g (m, out) t n =
    apply_locked_lem 0 (record g { machine = m }) out
    ∙ boot_policies (carry_out (record g { machine = m }) out) out t n

pub machine-carried : (g : VirtualGate) (r : StateMachine × Outputs) → (carried g r).machine ≡ r.0
unfolding carried carry_out set_motors set_deadlines tell_tracker record_ack
machine-carried g r = refl

-- What a call of `step_locked` leaves alone.
pub record IsFramed (g g' : VirtualGate) : Type 0 where
  pub same_cfg : g'.cfg ≡ g.cfg
  pub same_time : g'.now_ms ≡ g.now_ms
  pub same_position : g'.position_ms ≡ g.position_ms
  pub same_beam : g'.beam_blocked ≡ g.beam_blocked

carried-IsFramed : (g : VirtualGate) (r : StateMachine × Outputs) → IsFramed g (carried g r)
unfolding carried carry_out set_motors set_deadlines tell_tracker record_ack
carried-IsFramed g r = record {
  same_cfg = refl;
  same_time = refl;
  same_position = refl;
  same_beam = refl;
}

applied-IsFramed : (g : VirtualGate) (out : Outputs) → IsFramed g (applied g out)
unfolding applied
applied-IsFramed g out =
    let same : IsFramed g g = record {
      same_cfg = refl;
      same_time = refl;
      same_position = refl;
      same_beam = refl;
    } in
    elim (Bool-cases (reverses g out)) [
      | inl e ↦ rw (e, if◌then◌else◌) (carried-IsFramed g (handle g.machine command_open))
      | inr e ↦ elim (Bool-cases (close_refused g out)) [
        | inl f ↦
            rw (e, f, if◌then◌else◌)
              record { same_cfg = refl; same_time = refl; same_position = refl; same_beam = refl }
        | inr f ↦ rw (e, f, if◌then◌else◌) same
      ]
    ]

pub step-IsFramed : (g : VirtualGate) (ev : Event) → IsFramed g (step_locked g ev)
step-IsFramed g ev =
    let a = carried-IsFramed g (handle g.machine ev) in
    let b = applied-IsFramed (carried g (handle g.machine ev)) (handle g.machine ev).1 in
    rw (step_locked_lem g ev) record {
      same_cfg = b.same_cfg ∙ a.same_cfg;
      same_time = b.same_time ∙ a.same_time;
      same_position = b.same_position ∙ a.same_position;
      same_beam = b.same_beam ∙ a.same_beam;
    }

-- An event without a reason in its outputs brings no policy.
pub step_quiet :
    (g : VirtualGate) (ev : Event)
    → (handle g.machine ev).1.reason ≡ Reason.none
    → step_locked g ev ≡ carried g (handle g.machine ev)
unfolding applied
step_quiet g ev h =
    let g' = carried g (handle g.machine ev) in
    let (no_reverse, no_refusal) = quiet_policies g' (handle g.machine ev).1 h in
    step_locked_lem g ev ∙ rw (no_reverse, no_refusal, if◌then◌else◌)
