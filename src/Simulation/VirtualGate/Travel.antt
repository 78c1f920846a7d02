-- ===== src/Simulation/VirtualGate/Travel.antt =====
-- A command to open, from the first millisecond to the last.
use mathlib.Core.List.{append-nil}
use alpr_li_dar_gate_automat.Simulation.VirtualGate.{
  step_locked, check_autoclose, check_watchdog, move, advance, tick_tracker, drive,
}
use alpr_li_dar_gate_automat.Simulation.VirtualGate.Depth.{reason-command_open, step_quiet, carried}
use alpr_li_dar_gate_automat.Machine.Types.{
  limit_open_hit, Action, Reason, closed, command_open, opened, opening,
}
use alpr_li_dar_gate_automat.Base.{
  ◌++◌, if_false, if_true, inl, inr, ◌∙◌, if◌then◌else◌, ap, leb, ltb, ◌&&◌, ◌≤◌, ◌⊎◌, sub32, ◌<◌,
  List, [], add32, arith, false, take, true, u32_mod, ℕ, ◌%◌, ◌+◌, ◌∷◌, ◌≡◌,
}
use alpr_li_dar_gate_automat.Simulation.VirtualGate.{
  drive_all, tell_tracker, set_deadlines, set_motors, carry_out, record_ack, issue, VirtualGate,
  open_gate,
}
use alpr_li_dar_gate_automat.Machine.{handle}
use alpr_li_dar_gate_automat.Rpc.Tracker.{
  no_verdict, on_tick, is_negative, arm, on_gate_event, max_id_length,
}

-- The gate that `g₀` becomes `e` milliseconds after a command to open was issued.
pub record IsOpening (g₀ : VirtualGate) (id : List ℕ) (e : ℕ) (g : VirtualGate) : Type 0 where
  pub moving : g.machine.state ≡ opening
  pub on : g.motor_open ≡ true
  pub same_cfg : g.cfg ≡ g₀.cfg
  pub waits : g.tracker.armed ≡ true
  pub for_open : g.tracker.terminal_ok ≡ opened
  pub under : g.tracker.id ≡ take max_id_length id
  pub until : g.tracker.deadline_ms ≡ add32 (g₀.now_ms % u32_mod) g₀.cfg.command_deadline_ms
  pub clock : g.now_ms ≡ g₀.now_ms + e
  pub at : g.position_ms ≡ g₀.position_ms + e
  pub watchdog : g.watchdog_deadline ≡ g₀.now_ms + g₀.cfg.motor_timeout_ms
  pub no_countdown : g.autoclose_deadline ≡ 0
  pub same_acks : g.acks ≡ g₀.acks

handle-command_open :
    (g : VirtualGate)
    → g.machine.state ≡ closed
    → let (m, out) = handle g.machine command_open in
      (m.state ≡ opening)
      × (out.new_state ≡ opening)
      × (out.transitioned ≡ true)
      × (out.reason ≡ Reason.none)
      × (out.actions
          ≡ Action.drive_motor_open ∷ Action.set_led_opening ∷ Action.emit_telemetry_state_changed
            ∷ [])
unfolding handle
handle-command_open g h = ground arith

departed :
    (g : VirtualGate) (id : List ℕ)
    → g.machine.state ≡ closed
    → g.tracker.armed ≡ false
    → let g' =
        record_ack g
          (arm g.tracker id opened (add32 (g.now_ms % u32_mod) g.cfg.command_deadline_ms)) in
      IsOpening g id 0 (carried g' (handle g'.machine command_open))
unfolding carried carry_out set_motors set_deadlines tell_tracker record_ack drive_all drive arm
    on_gate_event
departed g id s t = ground (arith, handle-command_open g s, append-nil g.acks)

issue-IsOpening :
    (g : VirtualGate) (id : List ℕ)
    → g.machine.state ≡ closed
    → g.tracker.armed ≡ false
    → IsOpening g id 0 (issue g id open_gate)
unfolding issue
issue-IsOpening g id s t =
    let deadline = add32 (g.now_ms % u32_mod) g.cfg.command_deadline_ms in
    let g' = record_ack g (arm g.tracker id opened deadline) in
    rw (step_quiet g' command_open (reason-command_open g'.machine)) (departed g id s t)

-- The clock says that the deadline is still to come.
pub still_ahead :
    (now e deadline : ℕ)
    → e < deadline
    → deadline < 2_147_483_648
    → is_negative (sub32 ((now + e) % u32_mod) (add32 (now % u32_mod) deadline)) ≡ true
still_ahead now e deadline h k = ground arith

record_ack_none : (g : VirtualGate) → record_ack g (g.tracker, no_verdict) ≡ g
unfolding record_ack
record_ack_none g = ap (λ l. record g { acks = l }) (append-nil g.acks)

pub tick_early :
    (g : VirtualGate)
    → is_negative (sub32 (g.now_ms % u32_mod) g.tracker.deadline_ms) ≡ true
    → tick_tracker g ≡ g
unfolding tick_tracker
tick_early g h =
    let e : (on_tick g.tracker (g.now_ms % u32_mod) ≡ (g.tracker, no_verdict)) =
      unfold on_tick in ground (arith, h) in
    rw e (record_ack_none g)

move_between :
    (g : VirtualGate) (dt : ℕ)
    → g.motor_open ≡ true
    → g.position_ms + dt < g.cfg.travel_ms
    → move g dt ≡ record g { position_ms = g.position_ms + dt }
unfolding move
move_between g dt o h =
    let e : (leb g.cfg.travel_ms (g.position_ms + dt) ≡ false) = ground arith in
    if_true _ _ o ∙ if_false _ _ e

move_arrives :
    (g : VirtualGate) (dt : ℕ)
    → g.motor_open ≡ true
    → g.cfg.travel_ms ≤ g.position_ms + dt
    → move g dt ≡ step_locked (record g { position_ms = g.cfg.travel_ms }) limit_open_hit
unfolding move
move_arrives g dt o h =
    let e : (leb g.cfg.travel_ms (g.position_ms + dt) ≡ true) = ground arith in
    if_true _ _ o ∙ if_true _ _ e

pub watchdog_waits :
    (g : VirtualGate)
    → (g.watchdog_deadline ≡ 0) ⊎ (g.now_ms < g.watchdog_deadline)
    → check_watchdog g ≡ g
unfolding check_watchdog
watchdog_waits g h =
    let e : ((ltb 0 g.watchdog_deadline && leb g.watchdog_deadline g.now_ms) ≡ false) =
      ground arith in
    rw (e, if◌then◌else◌)

pub autoclose_waits :
    (g : VirtualGate)
    → (g.autoclose_deadline ≡ 0) ⊎ (g.now_ms < g.autoclose_deadline)
    → check_autoclose g ≡ g
unfolding check_autoclose
autoclose_waits g h =
    let e : ((ltb 0 g.autoclose_deadline && leb g.autoclose_deadline g.now_ms) ≡ false) =
      ground arith in
    rw (e, if◌then◌else◌)

handle-limit_open_hit :
    (g : VirtualGate)
    → g.machine.state ≡ opening
    → let (m, out) = handle g.machine limit_open_hit in
      (m.state ≡ opened)
      × (out.new_state ≡ opened)
      × (out.transitioned ≡ true)
      × (out.reason ≡ Reason.none)
      × (out.actions
          ≡ Action.stop_motor ∷ Action.set_led_open ∷ Action.emit_telemetry_state_changed ∷ [])
unfolding handle
handle-limit_open_hit g h = ground arith

-- The gate that opening leaves: it stands open at the end of the rail with its motors off, and has
-- answered the command with success.
pub record HasOpened (g₀ : VirtualGate) (id : List ℕ) (g : VirtualGate) : Type 0 where
  pub stands : g.machine.state ≡ opened
  pub still : (g.motor_open ≡ false) × (g.motor_close ≡ false)
  pub at_end : g.position_ms ≡ g₀.cfg.travel_ms
  pub idle : g.tracker.armed ≡ false
  pub answered_ok :
      g.acks
      ≡ g₀.acks ++ record { command_id = take max_id_length id; success = true; error = "" } ∷ []

arrived :
    (g₀ g : VirtualGate) (id : List ℕ) (e dt : ℕ)
    → IsOpening g₀ id e g
    → let g' = record g { now_ms = g.now_ms + dt; position_ms = g.cfg.travel_ms } in
      let r = carried g' (handle g.machine limit_open_hit) in
      HasOpened g₀ id r
      × (r.watchdog_deadline ≡ 0)
      × ((r.autoclose_deadline ≡ 0) ⊎ (r.now_ms < r.autoclose_deadline))
unfolding carried carry_out set_motors set_deadlines tell_tracker record_ack drive_all drive
    on_gate_event
arrived g₀ g id e dt o = ground (arith, handle-limit_open_hit g o.moving)

module _ (g₀ : VirtualGate) (id : List ℕ) (small : g₀.cfg.command_deadline_ms < 2_147_483_648) where
  early :
      (g : VirtualGate) (e dt : ℕ)
      → IsOpening g₀ id e g
      → e + dt < g₀.cfg.command_deadline_ms
      → is_negative (sub32 ((g.now_ms + dt) % u32_mod) g.tracker.deadline_ms) ≡ true
  early g e dt o h =
      let n : (g.now_ms + dt ≡ g₀.now_ms + (e + dt)) = omega (arith, o.clock) in
      rw (n, o.until) (still_ahead g₀.now_ms (e + dt) g₀.cfg.command_deadline_ms h small)

  goes_on :
      (g : VirtualGate) (e dt : ℕ)
      → IsOpening g₀ id e g
      → e + dt < g₀.cfg.command_deadline_ms
      → e + dt < g₀.cfg.motor_timeout_ms
      → g₀.position_ms + (e + dt) < g₀.cfg.travel_ms
      → IsOpening g₀ id (e + dt) (advance g dt)
  unfolding advance
  goes_on g e dt o d w p =
      let g' = record g { now_ms = g.now_ms + dt } in
      let moved = record g' { position_ms = g.position_ms + dt } in
      let t : (tick_tracker g' ≡ g') = tick_early g' (early g e dt o d) in
      let m : (move g' dt ≡ moved) = move_between g' dt o.on (ground (arith, o.at, o.same_cfg)) in
      let c : (check_watchdog moved ≡ moved) =
        watchdog_waits moved (inr (ground (arith, o.watchdog, o.clock))) in
      let a : (check_autoclose moved ≡ moved) = autoclose_waits moved (inl o.no_countdown) in
      rw (t, m, c, a)
        record {
          moving = o.moving;
          on = o.on;
          same_cfg = o.same_cfg;
          waits = o.waits;
          for_open = o.for_open;
          under = o.under;
          until = o.until;
          clock = omega (arith, o.clock);
          at = omega (arith, o.at);
          watchdog = o.watchdog;
          no_countdown = o.no_countdown;
          same_acks = o.same_acks;
        }

  arrives :
      (g : VirtualGate) (e dt : ℕ)
      → IsOpening g₀ id e g
      → e + dt < g₀.cfg.command_deadline_ms
      → g₀.cfg.travel_ms ≤ g₀.position_ms + (e + dt)
      → HasOpened g₀ id (advance g dt)
  unfolding advance
  arrives g e dt o d p =
      let g' = record g { now_ms = g.now_ms + dt } in
      let at_end = record g' { position_ms = g.cfg.travel_ms } in
      let r = carried at_end (handle g.machine limit_open_hit) in
      let (opened_gate, off, countdown) = arrived g₀ g id e dt o in
      let t : (tick_tracker g' ≡ g') = tick_early g' (early g e dt o d) in
      let m : (move g' dt ≡ r) =
        move_arrives g' dt o.on (ground (arith, o.at, o.same_cfg))
        ∙ step_quiet at_end limit_open_hit (handle-limit_open_hit g o.moving).3 in
      let c : (check_watchdog r ≡ r) = watchdog_waits r (inl off) in
      let a : (check_autoclose r ≡ r) = autoclose_waits r countdown in rw (t, m, c, a) opened_gate

abbrev pub advance_all : VirtualGate → List ℕ → VirtualGate
advance_all g [] = g
advance_all g (dt ∷ dts) = advance_all (advance g dt) dts

abbrev pub total : List ℕ → ℕ
total [] = 0
total (dt ∷ dts) = dt + total dts

module _ (g₀ : VirtualGate) (id : List ℕ) (small : g₀.cfg.command_deadline_ms < 2_147_483_648) where
  opens_from :
      (g : VirtualGate) (e : ℕ) (dts : List ℕ) (last : ℕ)
      → IsOpening g₀ id e g
      → e + total dts + last < g₀.cfg.command_deadline_ms
      → e + total dts < g₀.cfg.motor_timeout_ms
      → g₀.position_ms + (e + total dts) < g₀.cfg.travel_ms
      → g₀.cfg.travel_ms ≤ g₀.position_ms + (e + total dts + last)
      → HasOpened g₀ id (advance (advance_all g dts) last)
  opens_from g e [] last o d w p q = arrives g₀ id small g e last o (omega arith) (omega arith)
  opens_from g e (dt ∷ dts) last o d w p q =
      opens_from (advance g dt) (e + dt) dts last
        (goes_on g₀ id small g e dt o (omega arith) (omega arith) (omega arith)) (omega arith)
        (omega arith) (omega arith) (omega arith)

-- A command to open that is issued to a closed gate without a command in flight opens it: however
-- the time is cut into steps, when their sum reaches the rest of the travel, before the motor's
-- time-out and the command's deadline (below 2 ^ 31 ms), the gate stands open with its motors off
-- and has answered that command with success.
pub issue-HasOpened :
    (g : VirtualGate) (id : List ℕ) (dts : List ℕ) (last : ℕ)
    → g.machine.state ≡ closed
    → g.tracker.armed ≡ false
    → g.cfg.command_deadline_ms < 2_147_483_648
    → total dts + last < g.cfg.command_deadline_ms
    → total dts < g.cfg.motor_timeout_ms
    → g.position_ms + total dts < g.cfg.travel_ms
    → g.cfg.travel_ms ≤ g.position_ms + (total dts + last)
    → HasOpened g id (advance (advance_all (issue g id open_gate) dts) last)
issue-HasOpened g id dts last s t small d w p q =
    opens_from g id small (issue g id open_gate) 0 dts last (issue-IsOpening g id s t) (omega arith)
      (omega arith) (omega arith) (omega arith)
