-- ===== src/Simulation/VirtualGate/Calls.antt =====
-- The calls of the simulated gate keep it valid.
use alpr_li_dar_gate_automat.Machine.{new}
use alpr_li_dar_gate_automat.Simulation.VirtualGate.Safety.{holds-IsReady, step-HoldsSince}
use alpr_li_dar_gate_automat.Simulation.VirtualGate.Boots.{
  reboot-IsValid, clear_fault-IsValid, boot_closed-IsValid, plain-IsValid, stepped-IsValid,
}
use alpr_li_dar_gate_automat.Machine.Types.{
  Event, command_close, command_open, command_stop, limit_closed_hit, limit_open_hit,
  safety_beam_cleared, safety_beam_tripped,
}
use alpr_li_dar_gate_automat.Base.{
  holds_if, ◌-◌, if◌then◌else◌, Bool-cases, List, [], arith, false, inl, inr, leb, ltb, refl, true,
  ℕ, ◌&&◌, ◌+◌, ◌<◌, ◌∷◌, ◌≡◌, ◌≢◌, ◌≤◌,
}
use alpr_li_dar_gate_automat.Simulation.VirtualGate.{
  reboot, Verdict, clear_fault, step_locked, Command, CommandTracker, local_close, tick_tracker,
  List, SimConfig, VirtualGate, advance, check_autoclose, check_watchdog, close_gate, drain_acks,
  issue, local_open, move, open_gate, power_on, record_ack, trip_beam, ℕ, boot_closed, clear_beam,
  operator_stop,
}
use alpr_li_dar_gate_automat.Machine.{StateMachine, handle}
use alpr_li_dar_gate_automat.Simulation.VirtualGate.Invariant.{IsValid, HoldsSince, moves, recloses}
use alpr_li_dar_gate_automat.Simulation.VirtualGate.Countdown.{close_overwrites}
use alpr_li_dar_gate_automat.Base.{sym, subst}

pub data Call : Type 0 where
  boots opens closes stops clears_fault reboots trips_beam clears_beam : Call
  issues : List ℕ → Command → Call
  advances : ℕ → Call
  drains : Call

unfoldable pub call : VirtualGate → Call → VirtualGate
call g boots = boot_closed g
call g opens = local_open g
call g closes = local_close g
call g stops = operator_stop g
call g clears_fault = clear_fault g
call g reboots = reboot g
call g trips_beam = trip_beam g
call g clears_beam = clear_beam g
call g (issues id c) = issue g id c
call g (advances dt) = advance g dt
call g drains = (drain_acks g).0

record_ack-HoldsSince :
    (since : ℕ) (g : VirtualGate) (r : CommandTracker × Verdict)
    → HoldsSince since g
    → HoldsSince since (record_ack g r)
unfolding record_ack
record_ack-HoldsSince since g (t, v) h = record {
  machine_valid = h.machine_valid;
  driven_right = record { opens = h.driven_right.opens; closes = h.driven_right.closes };
  watched = h.watched;
  beam_known = h.beam_known;
  in_range = h.in_range;
  patient = h.patient;
  past = h.past;
}

issue-IsValid : (g : VirtualGate) (id : List ℕ) (c : Command) → IsValid g → IsValid (issue g id c)
unfolding issue record_ack
issue-IsValid g id open_gate v =
    plain-IsValid (record_ack g _) command_open (λ h. cc) (λ h. cc)
      (record_ack-HoldsSince g.now_ms g _ v)
issue-IsValid g id close_gate v =
    plain-IsValid (record_ack g _) command_close (λ h. cc) (λ h. cc)
      (record_ack-HoldsSince g.now_ms g _ v)

trip_beam-IsValid : (g : VirtualGate) → IsValid g → IsValid (trip_beam g)
unfolding trip_beam
trip_beam-IsValid g v =
    stepped-IsValid (record g { beam_blocked = true }) safety_beam_tripped
      record {
        machine_valid = v.machine_valid;
        driven_right = record { opens = v.driven_right.opens; closes = v.driven_right.closes };
        watched = inl v.watched;
        beam_known = refl;
        in_range = v.in_range;
        patient = v.patient;
        past = v.past;
      }

clear_beam-IsValid : (g : VirtualGate) → IsValid g → IsValid (clear_beam g)
unfolding clear_beam
clear_beam-IsValid g v =
    stepped-IsValid (record g { beam_blocked = false }) safety_beam_cleared
      record {
        machine_valid = v.machine_valid;
        driven_right = record { opens = v.driven_right.opens; closes = v.driven_right.closes };
        watched = inl v.watched;
        beam_known = refl;
        in_range = v.in_range;
        patient = v.patient;
        past = v.past;
      }

-- Time passes: the deadlines were looked at before.
later-HoldsSince :
    (g : VirtualGate) (dt : ℕ)
    → IsValid g
    → HoldsSince g.now_ms (record g { now_ms = g.now_ms + dt })
later-HoldsSince g dt v = record {
  machine_valid = v.machine_valid;
  driven_right = record { opens = v.driven_right.opens; closes = v.driven_right.closes };
  watched = record {
    ahead = λ h. let (a, b) = v.watched.ahead h in (a, omega arith);
    off = v.watched.off;
    counting = λ h. let (a, b) = v.watched.counting h in (a, omega arith);
    resting = v.watched.resting;
  };
  beam_known = v.beam_known;
  in_range = v.in_range;
  patient = v.patient;
  past = omega arith;
}

moved_to :
    (since : ℕ) (g : VirtualGate) (p : ℕ)
    → p ≤ g.cfg.travel_ms
    → HoldsSince since g
    → HoldsSince since (record g { position_ms = p })
moved_to since g p r v = record {
  machine_valid = v.machine_valid;
  driven_right = record { opens = v.driven_right.opens; closes = v.driven_right.closes };
  watched = v.watched;
  beam_known = v.beam_known;
  in_range = r;
  patient = v.patient;
  past = v.past;
}

step-plain :
    (since : ℕ) (g : VirtualGate) (ev : Event)
    → ev ≢ safety_beam_tripped
    → ev ≢ safety_beam_cleared
    → HoldsSince since g
    → HoldsSince since (step_locked g ev)
step-plain since g ev t c v = step-HoldsSince since g ev (holds-IsReady since g ev t c v)

move-HoldsSince :
    (since : ℕ) (g : VirtualGate) (dt : ℕ) → HoldsSince since g → HoldsSince since (move g dt)
unfolding move
move-HoldsSince since g dt v =
    holds_if (HoldsSince since) g.motor_open
      (λ _.
        holds_if (HoldsSince since) (leb g.cfg.travel_ms (g.position_ms + dt))
          (λ _.
            step-plain since _ limit_open_hit (λ h. cc) (λ h. cc)
              (moved_to since g g.cfg.travel_ms (omega arith) v))
          (λ f. moved_to since g (g.position_ms + dt) (ground (arith, f)) v))
      (λ _.
        holds_if (HoldsSince since) g.motor_close
          (λ _.
            holds_if (HoldsSince since) (leb g.position_ms dt)
              (λ _.
                step-plain since _ limit_closed_hit (λ h. cc) (λ h. cc)
                  (moved_to since g 0 (omega arith) v))
              (λ _. moved_to since g (g.position_ms - dt) (ground (arith, v.in_range)) v))
          (λ _. v))

motor_timeout_moves :
    (m : StateMachine) → moves m.state ≡ true → (handle m Event.motor_timeout).1.transitioned ≡ true
unfolding handle
motor_timeout_moves m h = ground arith

-- After the watchdog's turn every deadline lies ahead again.
check_watchdog-IsValid :
    (since : ℕ) (g : VirtualGate) → HoldsSince since g → IsValid (check_watchdog g)
unfolding check_watchdog
check_watchdog-IsValid since g v =
    elim (Bool-cases (ltb 0 g.watchdog_deadline && leb g.watchdog_deadline g.now_ms)) [
      | inl e ↦
          rw (e, if◌then◌else◌)
            (stepped-IsValid (record g { watchdog_deadline = 0 }) Event.motor_timeout
              record {
                machine_valid = v.machine_valid;
                driven_right = record {
                  opens = v.driven_right.opens;
                  closes = v.driven_right.closes;
                };
                watched = inr (motor_timeout_moves g.machine (ground (arith, e, v.watched.off)));
                beam_known = v.beam_known;
                in_range = v.in_range;
                patient = v.patient;
                past = omega arith;
              })
      | inr e ↦
          rw (e, if◌then◌else◌)
            record {
              machine_valid = v.machine_valid;
              driven_right = v.driven_right;
              watched = record {
                ahead = λ h. let (a, b) = v.watched.ahead h in (ground (arith, e, a), b);
                off = v.watched.off;
                counting = v.watched.counting;
                resting = v.watched.resting;
              };
              beam_known = v.beam_known;
              in_range = v.in_range;
              patient = v.patient;
              past = omega arith;
            }
    ]

check_autoclose-IsValid : (g : VirtualGate) → IsValid g → IsValid (check_autoclose g)
unfolding check_autoclose
check_autoclose-IsValid g v =
    holds_if IsValid (ltb 0 g.autoclose_deadline && leb g.autoclose_deadline g.now_ms)
      (λ e.
        subst IsValid
          (sym (
            close_overwrites g 0 (elim (Bool-cases (recloses g.machine.state g.cfg.auto_close_ms)) [
              | inl r ↦ r
              | inr r ↦ absurd (ground (arith, e, v.watched.resting r))
            ])))
          (plain-IsValid g command_close (λ h. cc) (λ h. cc) v))
      (λ _. v)

advance-IsValid : (g : VirtualGate) (dt : ℕ) → IsValid g → IsValid (advance g dt)
unfolding advance tick_tracker
advance-IsValid g dt v = check_autoclose-IsValid _ (
    check_watchdog-IsValid g.now_ms _ (
      move-HoldsSince g.now_ms _ dt (record_ack-HoldsSince g.now_ms _ _ (later-HoldsSince g dt v))))

drain-IsValid : (g : VirtualGate) → IsValid g → IsValid (drain_acks g).0
unfolding drain_acks
drain-IsValid g v = record {
  machine_valid = v.machine_valid;
  driven_right = record { opens = v.driven_right.opens; closes = v.driven_right.closes };
  watched = v.watched;
  beam_known = v.beam_known;
  in_range = v.in_range;
  patient = v.patient;
  past = v.past;
}

call-IsValid : (g : VirtualGate) (c : Call) → IsValid g → IsValid (call g c)
unfolding call local_open local_close operator_stop
call-IsValid g boots v = boot_closed-IsValid g v
call-IsValid g opens v = plain-IsValid g command_open (λ h. cc) (λ h. cc) v
call-IsValid g closes v = plain-IsValid g command_close (λ h. cc) (λ h. cc) v
call-IsValid g stops v = plain-IsValid g command_stop (λ h. cc) (λ h. cc) v
call-IsValid g clears_fault v = clear_fault-IsValid g v
call-IsValid g reboots v = reboot-IsValid g v
call-IsValid g trips_beam v = trip_beam-IsValid g v
call-IsValid g clears_beam v = clear_beam-IsValid g v
call-IsValid g (issues id c) v = issue-IsValid g id c v
call-IsValid g (advances dt) v = advance-IsValid g dt v
call-IsValid g drains v = drain-IsValid g v

unfoldable pub run : VirtualGate → List Call → VirtualGate
run g [] = g
run g (c ∷ cs) = run (call g c) cs

power_on-IsValid : (c : SimConfig) → 0 < c.motor_timeout_ms → IsValid (power_on c)
unfolding power_on new
power_on-IsValid c h = ground arith

run_from-IsValid : (g : VirtualGate) (cs : List Call) → IsValid g → IsValid (run g cs)
unfolding run
run_from-IsValid g [] v = v
run_from-IsValid g (c ∷ cs) v = run_from-IsValid (call g c) cs (call-IsValid g c v)

-- With a positive motor time-out, after any calls on a new gate: the motors run exactly as the state
-- says, so never both and never closing against the beam; a moving gate has its watchdog ahead of
-- it, by no more than the time-out, and a resting one has none; in Open, with an auto-close time above
-- 0, the countdown is set, by no more than that time ahead, and nowhere else; the latch knows the
-- beam; and the position is on the rail.
pub run-power_on-IsValid :
    (c : SimConfig) (cs : List Call) → 0 < c.motor_timeout_ms → IsValid (run (power_on c) cs)
run-power_on-IsValid c cs h = run_from-IsValid (power_on c) cs (power_on-IsValid c h)
