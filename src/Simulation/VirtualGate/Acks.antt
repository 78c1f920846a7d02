-- ===== src/Simulation/VirtualGate/Acks.antt =====
-- Which commands the simulated gate has answered.
use alpr_li_dar_gate_automat.Machine.Types.{
  Event, state_eq, command_close, command_open, fault_cleared, initializing, limit_closed_hit,
  limit_open_hit,
}
use alpr_li_dar_gate_automat.Simulation.VirtualGate.Depth.{apply_locked_lem, applied, carried}
use alpr_li_dar_gate_automat.Simulation.VirtualGate.{
  event_of, set_deadlines, close_refused, set_motors, terminal_of, Command, carry_out, reverses,
  tick_tracker, State, advance, check_autoclose, check_watchdog, clear_fault, issue, move,
  resolve_position, settle, step_locked, Reason, reason_eq, Ack, Outputs, ack_of, VirtualGate,
  record_ack, tell_tracker,
}
use alpr_li_dar_gate_automat.Base.{
  Bool, add32, leb, ltb, take, u32_mod, ◌%◌, ◌&&◌, ◌+◌, List, [], ap, arith, holds_if, not, refl,
  sym, ℕ, ◌++◌, ◌||◌, ◌∙◌, ◌∷◌, ◌≡◌,
}
use mathlib.Core.List.{append-nil, append_assoc}
use alpr_li_dar_gate_automat.Machine.{handle, StateMachine, init_closed, init_open, init_unknown}
use alpr_li_dar_gate_automat.Rpc.Tracker.{
  Verdict, arm, on_gate_event, on_tick, no_verdict, max_id_length,
}
use alpr_li_dar_gate_automat.Rpc.Tracker.Verdicts
use alpr_li_dar_gate_automat.Rpc.Tracker.Verdicts.{
  arms, hears, ticks, fired_id, live_id, armed_id, call_balance,
}

abbrev pub ack_ids : List Ack → List (List ℕ)
ack_ids [] = []
ack_ids (a ∷ acks) = a.command_id ∷ ack_ids acks

ack_ids-append : (xs ys : List Ack) → ack_ids (xs ++ ys) ≡ ack_ids xs ++ ack_ids ys
ack_ids-append [] ys = refl
ack_ids-append (a ∷ xs) ys = ap (λ l. a.command_id ∷ l) (ack_ids-append xs ys)

-- The commands answered and not yet fetched, then the one in flight.
abbrev pub accounted : VirtualGate → List (List ℕ)
accounted g = ack_ids g.acks ++ live_id g.tracker

ack_ids-ack_of : (v : Verdict) → ack_ids (ack_of v) ≡ fired_id v
ack_ids-ack_of v = ground arith

accounted-record_ack :
    (g : VirtualGate) (c : Verdicts.Call)
    → accounted (record_ack g (Verdicts.call g.tracker c)) ≡ accounted g ++ armed_id c
unfolding record_ack
accounted-record_ack g c =
    let r = Verdicts.call g.tracker c in
    rw (ack_ids-append g.acks (ack_of r.1), ack_ids-ack_of r.1)
      (append_assoc (ack_ids g.acks) (fired_id r.1) (live_id r.0)
        ∙ ap (λ l. ack_ids g.acks ++ l) (call_balance g.tracker c)
        ∙ sym (append_assoc (ack_ids g.acks) (live_id g.tracker) (armed_id c)))

pub heard_keeps :
    (g : VirtualGate) (s : State) (r : Reason) (b : Bool)
    → accounted (record_ack g (on_gate_event g.tracker s r b)) ≡ accounted g
unfolding Verdicts.call
heard_keeps g s r b = accounted-record_ack g (hears s r b) ∙ append-nil (accounted g)

ticked_keeps :
    (g : VirtualGate) (now : ℕ) → accounted (record_ack g (on_tick g.tracker now)) ≡ accounted g
unfolding Verdicts.call
ticked_keeps g now = accounted-record_ack g (ticks now) ∙ append-nil (accounted g)

unheard_keeps : (g : VirtualGate) → accounted (record_ack g (g.tracker, no_verdict)) ≡ accounted g
unfolding record_ack
unheard_keeps g = ap (λ l. ack_ids l ++ live_id g.tracker) (append-nil g.acks)

accounted-tell_tracker :
    (g : VirtualGate) (out : Outputs) → accounted (tell_tracker g out) ≡ accounted g
unfolding tell_tracker
accounted-tell_tracker g out =
    holds_if (λ r. accounted (record_ack g r) ≡ accounted g)
      (out.transitioned || not (reason_eq out.reason Reason.none))
      (λ _. heard_keeps g out.new_state out.reason out.transitioned) (λ _. unheard_keeps g)

accounted-carried :
    (g : VirtualGate) (r : StateMachine × Outputs) → accounted (carried g r) ≡ accounted g
unfolding carried carry_out set_motors set_deadlines
accounted-carried g (m, out) = accounted-tell_tracker _ out

accounted-applied : (g : VirtualGate) (out : Outputs) → accounted (applied g out) ≡ accounted g
unfolding applied
accounted-applied g out =
    holds_if (λ g'. accounted g' ≡ accounted g) (reverses g out)
      (λ _. accounted-carried g (handle g.machine command_open))
      (λ _.
        holds_if (λ g'. accounted g' ≡ accounted g) (close_refused g out) (λ _. refl) (λ _. refl))

pub accounted-settle :
    (g : VirtualGate) (r : StateMachine × Outputs) → accounted (settle g r) ≡ accounted g
unfolding settle
accounted-settle g (m, out) =
    let g' = record g { machine = m } in
    rw (apply_locked_lem 0 g' out)
      (accounted-applied (carry_out g' out) out ∙ unfold carried in accounted-carried g (m, out))

pub accounted-step : (g : VirtualGate) (ev : Event) → accounted (step_locked g ev) ≡ accounted g
unfolding step_locked
accounted-step g ev = accounted-settle g (handle g.machine ev)

pub accounted-resolve_position : (g : VirtualGate) → accounted (resolve_position g) ≡ accounted g
unfolding resolve_position
accounted-resolve_position g =
    holds_if (λ g'. accounted g' ≡ accounted g) (leb g.position_ms 0)
      (λ _. accounted-settle g (init_closed g.machine))
      (λ _.
        holds_if (λ g'. accounted g' ≡ accounted g) (leb g.cfg.travel_ms g.position_ms)
          (λ _. accounted-settle g (init_open g.machine))
          (λ _. accounted-settle g (init_unknown g.machine)))

pub accounted-clear_fault : (g : VirtualGate) → accounted (clear_fault g) ≡ accounted g
unfolding clear_fault
accounted-clear_fault g =
    let g' = step_locked g fault_cleared in
    holds_if (λ h. accounted h ≡ accounted g) (state_eq g'.machine.state initializing)
      (λ _. accounted-resolve_position g' ∙ accounted-step g fault_cleared)
      (λ _. accounted-step g fault_cleared)

pub accounted-issue :
    (g : VirtualGate) (id : List ℕ) (c : Command)
    → accounted (issue g id c) ≡ accounted g ++ take max_id_length id ∷ []
unfolding issue Verdicts.call
accounted-issue g id c =
    let t = terminal_of c in
    let deadline = add32 (g.now_ms % u32_mod) g.cfg.command_deadline_ms in
    accounted-step (record_ack g (arm g.tracker id t deadline)) (event_of c)
    ∙ accounted-record_ack g (arms id t deadline)

accounted-move : (g : VirtualGate) (dt : ℕ) → accounted (move g dt) ≡ accounted g
unfolding move
accounted-move g dt =
    holds_if (λ h. accounted h ≡ accounted g) g.motor_open
      (λ _.
        holds_if (λ h. accounted h ≡ accounted g) (leb g.cfg.travel_ms (g.position_ms + dt))
          (λ _. accounted-step (record g { position_ms = g.cfg.travel_ms }) limit_open_hit)
          (λ _. refl))
      (λ _.
        holds_if (λ h. accounted h ≡ accounted g) g.motor_close
          (λ _.
            holds_if (λ h. accounted h ≡ accounted g) (leb g.position_ms dt)
              (λ _. accounted-step (record g { position_ms = 0 }) limit_closed_hit) (λ _. refl))
          (λ _. refl))

accounted-check_watchdog : (g : VirtualGate) → accounted (check_watchdog g) ≡ accounted g
unfolding check_watchdog
accounted-check_watchdog g =
    holds_if (λ h. accounted h ≡ accounted g)
      (ltb 0 g.watchdog_deadline && leb g.watchdog_deadline g.now_ms)
      (λ _. accounted-step (record g { watchdog_deadline = 0 }) Event.motor_timeout) (λ _. refl)

accounted-check_autoclose : (g : VirtualGate) → accounted (check_autoclose g) ≡ accounted g
unfolding check_autoclose
accounted-check_autoclose g =
    holds_if (λ h. accounted h ≡ accounted g)
      (ltb 0 g.autoclose_deadline && leb g.autoclose_deadline g.now_ms)
      (λ _. accounted-step (record g { autoclose_deadline = 0 }) command_close) (λ _. refl)

pub accounted-advance : (g : VirtualGate) (dt : ℕ) → accounted (advance g dt) ≡ accounted g
unfolding advance tick_tracker
accounted-advance g dt =
    let g' = record g { now_ms = g.now_ms + dt } in
    accounted-check_autoclose _
    ∙ accounted-check_watchdog _
    ∙ accounted-move _ dt
    ∙ ticked_keeps g' (g'.now_ms % u32_mod)
