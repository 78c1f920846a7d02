-- ===== src/Simulation/VirtualGate/Redundant.antt =====
-- A command to open, issued to a gate that stands open.
use alpr_li_dar_gate_automat.Rpc.Tracker.{resolve, arm, on_tick, is_negative, max_id_length}
use alpr_li_dar_gate_automat.Machine.Types.{Reason, opened, command_open}
use alpr_li_dar_gate_automat.Base.{
  List, [], add32, arith, false, if_false, inl, refl, sub32, take, true, u32_mod, ℕ, ◌%◌, ◌++◌, ◌+◌,
  ◌<◌, ◌∙◌, ◌∷◌, ◌≡◌, ◌≤◌,
}
use alpr_li_dar_gate_automat.Simulation.VirtualGate.Depth.{reason-command_open, step_quiet, carried}
use alpr_li_dar_gate_automat.Machine.{handle}
use alpr_li_dar_gate_automat.Simulation.VirtualGate.{
  drive_all, tell_tracker, check_autoclose, set_deadlines, check_watchdog, set_motors, carry_out,
  move, record_ack, tick_tracker, VirtualGate, advance, issue, open_gate,
}
use alpr_li_dar_gate_automat.Simulation.VirtualGate.Travel.{
  advance_all, total, tick_early, still_ahead, watchdog_waits, autoclose_waits,
}
use mathlib.Core.List.{append-nil}

-- Open, with the motors off and nothing counting down.
pub record IsResting (g : VirtualGate) : Type 0 where
  pub stands : g.machine.state ≡ opened
  pub off : (g.motor_open ≡ false) × (g.motor_close ≡ false)
  pub no_watchdog : g.watchdog_deadline ≡ 0
  pub no_countdown : g.autoclose_deadline ≡ 0

-- The gate that `g₀` is, `e` milliseconds after the command was issued.
record IsWaiting (g₀ : VirtualGate) (id : List ℕ) (e : ℕ) (g : VirtualGate) : Type 0 where
  resting : IsResting g
  waits : g.tracker.armed ≡ true
  under : g.tracker.id ≡ take max_id_length id
  until : g.tracker.deadline_ms ≡ add32 (g₀.now_ms % u32_mod) g₀.cfg.command_deadline_ms
  clock : g.now_ms ≡ g₀.now_ms + e
  same_acks : g.acks ≡ g₀.acks

handle-open_again :
    (g : VirtualGate)
    → g.machine.state ≡ opened
    → let (m, out) = handle g.machine command_open in
      (m.state ≡ opened)
      × (out.transitioned ≡ false)
      × (out.reason ≡ Reason.none)
      × (out.actions ≡ [])
unfolding handle
handle-open_again g h = ground arith

unmoved :
    (g : VirtualGate) (id : List ℕ)
    → IsResting g
    → g.tracker.armed ≡ false
    → let g' =
        record_ack g
          (arm g.tracker id opened (add32 (g.now_ms % u32_mod) g.cfg.command_deadline_ms)) in
      IsWaiting g id 0 (carried g' (handle g'.machine command_open))
unfolding carried carry_out set_motors set_deadlines tell_tracker record_ack drive_all arm
unmoved g id r t = ground (arith, r, handle-open_again g r.stands, append-nil g.acks)

issue-IsWaiting :
    (g : VirtualGate) (id : List ℕ)
    → IsResting g
    → g.tracker.armed ≡ false
    → IsWaiting g id 0 (issue g id open_gate)
unfolding issue
issue-IsWaiting g id r t =
    let deadline = add32 (g.now_ms % u32_mod) g.cfg.command_deadline_ms in
    let g' = record_ack g (arm g.tracker id opened deadline) in
    rw (step_quiet g' command_open (reason-command_open g'.machine)) (unmoved g id r t)

-- On a resting gate time only ticks the tracker.
advance_resting :
    (g : VirtualGate) (dt : ℕ)
    → IsResting g
    → advance g dt ≡ tick_tracker (record g { now_ms = g.now_ms + dt })
unfolding advance move tick_tracker record_ack
advance_resting g dt r =
    let ticked = tick_tracker (record g { now_ms = g.now_ms + dt }) in
    let m : (move ticked dt ≡ ticked) = if_false _ _ r.off.0 ∙ if_false _ _ r.off.1 in
    let c : (check_watchdog ticked ≡ ticked) = watchdog_waits ticked (inl r.no_watchdog) in
    let a : (check_autoclose ticked ≡ ticked) = autoclose_waits ticked (inl r.no_countdown) in
    rw (m, c, a) refl

-- The clock says that the deadline has come.
passed :
    (now e deadline : ℕ)
    → deadline ≤ e
    → e < deadline + 2_147_483_648
    → is_negative (sub32 ((now + e) % u32_mod) (add32 (now % u32_mod) deadline)) ≡ false
passed now e deadline h k = ground arith

-- The gate still stands open, and the command has been answered with failure.
pub record HasFailed (g₀ : VirtualGate) (id : List ℕ) (g : VirtualGate) : Type 0 where
  pub stands : g.machine.state ≡ opened
  pub idle : g.tracker.armed ≡ false
  pub answered_late :
      g.acks
      ≡ g₀.acks
        ++ record {
          command_id = take max_id_length id;
          success = false;
          error = "deadline exceeded awaiting terminal state";
        }
          ∷ []

module _ (g₀ : VirtualGate) (id : List ℕ) (small : g₀.cfg.command_deadline_ms < 2_147_483_648) where
  waits_on :
      (g : VirtualGate) (e dt : ℕ)
      → IsWaiting g₀ id e g
      → e + dt < g₀.cfg.command_deadline_ms
      → IsWaiting g₀ id (e + dt) (advance g dt)
  waits_on g e dt w d =
      let g' = record g { now_ms = g.now_ms + dt } in
      let n : (g.now_ms + dt ≡ g₀.now_ms + (e + dt)) = omega (arith, w.clock) in
      let early : (is_negative (sub32 ((g.now_ms + dt) % u32_mod) g.tracker.deadline_ms) ≡ true) =
        rw (n, w.until) (still_ahead g₀.now_ms (e + dt) g₀.cfg.command_deadline_ms d small) in
      rw (advance_resting g dt w.resting, tick_early g' early)
        record {
          resting = record {
            stands = w.resting.stands;
            off = w.resting.off;
            no_watchdog = w.resting.no_watchdog;
            no_countdown = w.resting.no_countdown;
          };
          waits = w.waits;
          under = w.under;
          until = w.until;
          clock = n;
          same_acks = w.same_acks;
        }

  fails :
      (g : VirtualGate) (e dt : ℕ)
      → IsWaiting g₀ id e g
      → g₀.cfg.command_deadline_ms ≤ e + dt
      → e + dt < g₀.cfg.command_deadline_ms + 2_147_483_648
      → HasFailed g₀ id (advance g dt)
  unfolding tick_tracker record_ack on_tick resolve
  fails g e dt w d k =
      let n : (g.now_ms + dt ≡ g₀.now_ms + (e + dt)) = omega (arith, w.clock) in
      let late : (is_negative (sub32 ((g.now_ms + dt) % u32_mod) g.tracker.deadline_ms) ≡ false) =
        rw (n, w.until) (passed g₀.now_ms (e + dt) g₀.cfg.command_deadline_ms d k) in
      rw (advance_resting g dt w.resting) (ground (arith, late, w))

  fails_from :
      (g : VirtualGate) (e : ℕ) (dts : List ℕ) (last : ℕ)
      → IsWaiting g₀ id e g
      → e + total dts < g₀.cfg.command_deadline_ms
      → g₀.cfg.command_deadline_ms ≤ e + total dts + last
      → e + total dts + last < g₀.cfg.command_deadline_ms + 2_147_483_648
      → HasFailed g₀ id (advance (advance_all g dts) last)
  fails_from g e [] last w d p k = fails g e last w (omega arith) (omega arith)
  fails_from g e (dt ∷ dts) last w d p k =
      fails_from (advance g dt) (e + dt) dts last (waits_on g e dt w (omega arith)) (omega arith)
        (omega arith) (omega arith)

-- A command to open that is issued to a gate that stands open, with its motors off, nothing counting
-- down and no command in flight: however the time is cut into steps, the step that reaches the
-- command's deadline (below 2 ^ 31 ms) answers it with failure, although the gate stood open all the
-- time.
pub issue-HasFailed :
    (g : VirtualGate) (id : List ℕ) (dts : List ℕ) (last : ℕ)
    → IsResting g
    → g.tracker.armed ≡ false
    → g.cfg.command_deadline_ms < 2_147_483_648
    → total dts < g.cfg.command_deadline_ms
    → g.cfg.command_deadline_ms ≤ total dts + last
    → total dts + last < g.cfg.command_deadline_ms + 2_147_483_648
    → HasFailed g id (advance (advance_all (issue g id open_gate) dts) last)
issue-HasFailed g id dts last r t small d p k =
    fails_from g id small (issue g id open_gate) 0 dts last (issue-IsWaiting g id r t) (omega arith)
      (omega arith) (omega arith)
