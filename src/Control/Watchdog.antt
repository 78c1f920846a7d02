-- ===== src/Control/Watchdog.antt =====
-- Every step keeps the watchdog and the auto-close countdown owed or queued.
use alpr_li_dar_gate_automat.Control.Boot.{booted, booted-IsSound}
use alpr_li_dar_gate_automat.Base.{
  List, [], if◌then◌else◌, ltb, ℕ, ◌++◌, ◌≤◌, Option-cases, ap, some, subst, sym, inl, inr, Bool,
  arith, false, length, true, ◌<◌, ◌∷◌, ◌≡◌, ◌⊎◌,
}
use alpr_li_dar_gate_automat.Drivers.LimitSwitch
use alpr_li_dar_gate_automat.Platform.Api.{TimerApi, QueueApi}
use alpr_li_dar_gate_automat.Machine.{StateMachine, handle, init_closed, init_open, init_unknown}
use alpr_li_dar_gate_automat.Machine.Types.{
  limit_open_hit, limit_open_released, limit_closed_hit, limit_closed_released, safety_beam_tripped,
  safety_beam_cleared, command_stop, command_open, fault_cleared, Event, opened, state_eq,
  motor_timeout, command_close,
}
use alpr_li_dar_gate_automat.Control.Controller.{
  Config, new, poll_limit_open, poll_limit_closed, poll_beam, watchdog_fires, autoclose_fires,
  calls_open, calls_close, calls_stop, calls_clear_fault, shows_led, pumps, Stimulus,
  GateController,
}
use alpr_li_dar_gate_automat.Control.Effects.{
  init_by, pump, pump_event, resolve_boot_position, apply_policies, moving,
}
use alpr_li_dar_gate_automat.Control.Execution.{handle-Announces, init_by-Announces}
use alpr_li_dar_gate_automat.Control.Invariant.{step-IsSound, IsSound, commit}
use alpr_li_dar_gate_automat.Control.Timers.{
  queued, IsGuarded, Owes, IsRefusal, commit-Rearmed, watched_after, reclosing_after,
  apply_policies-IsGuarded, post-IsGuarded, queued-send, queued-send_self,
}
use alpr_li_dar_gate_automat.Control.Steps.{run, start, settle, prelatch, step}

init_by_moves : (o c : Bool) (m : StateMachine) → (init_by o c m).1.transitioned ≡ true
unfolding init_by init_closed init_open init_unknown
init_by_moves o c m = ground arith

init_by_rests : (o c : Bool) (m : StateMachine) → moving (init_by o c m).0.state ≡ false
unfolding init_by init_closed init_open init_unknown
init_by_rests o c m = ground arith

module _ {T : TimerApi} {Q : QueueApi Event} where
  resolve-IsGuarded : (c : GateController T Q) → IsGuarded (resolve_boot_position c)
  unfolding resolve_boot_position
  resolve-IsGuarded c =
      let open_active = LimitSwitch.is_active c.limit_open in
      let closed_active = LimitSwitch.is_active c.limit_closed in
      let (m, o) = init_by open_active closed_active c.sm in
      let r = commit-Rearmed c m o (init_by-Announces open_active closed_active c.sm) in
      let moves = r.moved (init_by_moves open_active closed_active c.sm) in
      ground (arith, r, moves, init_by_rests open_active closed_active c.sm)

  pump_event-IsGuarded :
      (c : GateController T Q) (ev : Event)
      → IsSound c
      → Owes
          (moving c.sm.state)
          c.cfg.sm.motor_timeout_ms
          (T.is_active c.watchdog_timer)
          motor_timeout
          (ev ∷ Q.waiting c.queue)
      → Owes
          (state_eq c.sm.state opened)
          c.cfg.sm.auto_close_ms
          (T.is_active c.autoclose_timer)
          command_close
          (ev ∷ Q.waiting c.queue)
      → IsGuarded (pump_event c ev).0
  unfolding pump_event
  pump_event-IsGuarded c ev v w k =
      let (m, o) = handle c.sm ev in
      let a = handle-Announces c.sm ev v.machine_valid in
      let d = commit c (m, o) in
      let r = commit-Rearmed c m o a in
      let same = ap (λ q. Q.waiting q) r.queue_kept in
      let g =
        apply_policies-IsGuarded d o
          (subst
            (Owes (moving d.sm.state) d.cfg.sm.motor_timeout_ms (T.is_active d.watchdog_timer)
              motor_timeout)
            (sym same) (watched_after c ev (Q.waiting c.queue) d r a w))
          (subst
            (λ q.
              IsRefusal o
              ⊎ Owes (state_eq d.sm.state opened) d.cfg.sm.auto_close_ms
                  (T.is_active d.autoclose_timer) command_close q)
            (sym same) (reclosing_after c ev (Q.waiting c.queue) d r a k)) in
      ground (arith, g, resolve-IsGuarded (apply_policies d o))

  received :
      (c : GateController T Q) (ev : Event)
      → (Q.receive c.queue).1 ≡ some ev
      → Q.waiting c.queue ≡ ev ∷ Q.waiting (Q.receive c.queue).0
  received c ev h = ground (arith, Q.receive_first c.queue, Q.waiting_receive c.queue)

  pump-IsGuarded : (c : GateController T Q) → IsSound c → IsGuarded c → IsGuarded (pump c).0
  unfolding pump
  pump-IsGuarded c v g = elim (Option-cases (Q.receive c.queue).1) [
    | inl e ↦ rw (e, pump) (ground (arith, Q.receive_first c.queue, Q.waiting_receive c.queue))
    | inr (ev, e) ↦
        rw (e, pump)
          (pump_event-IsGuarded (record c { queue = (Q.receive c.queue).0 }) ev (ground (arith, v))
            (subst
              (Owes (moving c.sm.state) c.cfg.sm.motor_timeout_ms (T.is_active c.watchdog_timer)
                motor_timeout)
              (received c ev e) g.watched)
            (subst
              (Owes (state_eq c.sm.state opened) c.cfg.sm.auto_close_ms
                (T.is_active c.autoclose_timer) command_close)
              (received c ev e) g.reclosing))
  ]

  -- The expiry of a timer finds room in the queue.
  abbrev pub FindsRoom : GateController T Q → Stimulus → Type 0
  FindsRoom c watchdog_fires = length (Q.waiting c.queue) < Q.depth c.queue
  FindsRoom c autoclose_fires = length (Q.waiting c.queue) < Q.depth c.queue
  FindsRoom c _ = Unit {0}

  -- Unless a timer expires into a full queue, every step keeps a moving gate under its watchdog or
  -- with the time-out queued, and an open gate under its auto-close countdown or with the
  -- close queued; a close that the beam refuses arms the countdown again.
  pub step-IsGuarded :
      (c : GateController T Q) (s : Stimulus)
      → IsSound c
      → IsGuarded c
      → FindsRoom c s
      → IsGuarded (step c s)
  unfolding step
  step-IsGuarded c pumps v g f = pump-IsGuarded c v g
  step-IsGuarded c watchdog_fires v g f = ground (
    arith,
    queued-send_self Q c.queue motor_timeout,
    queued-send Q c.queue motor_timeout command_close,
  )
  step-IsGuarded c autoclose_fires v g f = ground (
    arith,
    queued-send_self Q c.queue command_close,
    queued-send Q c.queue command_close motor_timeout,
  )
  step-IsGuarded c (poll_limit_open raw) v g f = ground (
    arith,
    queued-send Q c.queue limit_open_hit motor_timeout,
    queued-send Q c.queue limit_open_hit command_close,
    queued-send Q c.queue limit_open_released motor_timeout,
    queued-send Q c.queue limit_open_released command_close,
  )
  step-IsGuarded c (poll_limit_closed raw) v g f = ground (
    arith,
    queued-send Q c.queue limit_closed_hit motor_timeout,
    queued-send Q c.queue limit_closed_hit command_close,
    queued-send Q c.queue limit_closed_released motor_timeout,
    queued-send Q c.queue limit_closed_released command_close,
  )
  step-IsGuarded c (poll_beam raw) v g f = ground (
    arith,
    queued-send Q c.queue safety_beam_tripped motor_timeout,
    queued-send Q c.queue safety_beam_tripped command_close,
    queued-send Q c.queue safety_beam_cleared motor_timeout,
    queued-send Q c.queue safety_beam_cleared command_close,
  )
  step-IsGuarded c calls_open v g f = post-IsGuarded c command_open g
  step-IsGuarded c calls_close v g f = post-IsGuarded c command_close g
  step-IsGuarded c calls_stop v g f = post-IsGuarded c command_stop g
  step-IsGuarded c calls_clear_fault v g f = post-IsGuarded c fault_cleared g
  step-IsGuarded c (shows_led p) v g f = ground arith

  -- Every timer that expires along a history finds room.
  abbrev pub FindsRoomAlong : GateController T Q → List Stimulus → Type 0
  FindsRoomAlong c [] = Unit {0}
  FindsRoomAlong c (s ∷ ss) = FindsRoom c s × FindsRoomAlong (step c s) ss

  run-IsGuarded :
      (c : GateController T Q) (ss : List Stimulus)
      → IsSound c
      → IsGuarded c
      → FindsRoomAlong c ss
      → IsGuarded (run c ss)
  unfolding run
  run-IsGuarded c [] v g f = g
  run-IsGuarded c (s ∷ ss) v g f =
      run-IsGuarded (step c s) ss (step-IsSound c s v) (step-IsGuarded c s v g f.0) f.1

  booted-IsGuarded :
      (cfg : Config) (o c b : ℕ) (ps : List Stimulus) (created : Bool)
      → IsGuarded (booted {T = T} {Q = Q} cfg o c b ps created)
  unfolding start new
  booted-IsGuarded cfg o c b ps created =
      let g =
        resolve-IsGuarded
          (prelatch (settle (record (new {T = T} {Q = Q} cfg o c b) { started = true }) ps)) in
      record { watched = g.watched; reclosing = g.reclosing }

  -- After any boot and any history in which no timer expires into a full queue: with a motor
  -- time-out above 0, a moving gate has its watchdog running or the time-out queued; and with an
  -- auto-close time above 0, an open gate has its countdown running or the close queued.
  pub run-booted-IsGuarded :
      (cfg : Config) (o c b : ℕ) (ps : List Stimulus) (created : Bool) (ss : List Stimulus)
      → FindsRoomAlong (booted {T = T} {Q = Q} cfg o c b ps created) ss
      → IsGuarded (run (booted {T = T} {Q = Q} cfg o c b ps created) ss)
  run-booted-IsGuarded cfg o c b ps created ss f =
      run-IsGuarded _ ss (booted-IsSound cfg o c b ps created)
        (booted-IsGuarded cfg o c b ps created) f

  -- The watchdog is a one-shot: where it expires into a full queue that holds no time-out, the
  -- moving gate is left with neither a running watchdog nor a time-out to come.
  pub full_queue_loses_watchdog :
      (c : GateController T Q)
      → moving c.sm.state ≡ true
      → 0 < c.cfg.sm.motor_timeout_ms
      → T.is_active c.watchdog_timer ≡ true
      → Q.depth c.queue ≤ length (Q.waiting c.queue)
      → queued motor_timeout (Q.waiting c.queue) ≡ false
      → ((step c watchdog_fires).sm.state ≡ c.sm.state) × (¬ IsGuarded (step c watchdog_fires))
  unfolding step
  full_queue_loses_watchdog c m p a f n =
      (ground arith, λ g. lost (Q.waiting_send c.queue motor_timeout) g.watched)
    where
      lost :
          Q.waiting (Q.send c.queue motor_timeout).0 ≡ (
            if ltb (length (Q.waiting c.queue)) (Q.depth c.queue)
            then Q.waiting c.queue ++ motor_timeout ∷ []
            else Q.waiting c.queue)
          → Owes
              (moving (step c watchdog_fires).sm.state)
              (step c watchdog_fires).cfg.sm.motor_timeout_ms
              (T.is_active (step c watchdog_fires).watchdog_timer)
              motor_timeout
              (Q.waiting (step c watchdog_fires).queue)
          → ⊥
      lost e w = ground (arith, T.expire_inactive c.watchdog_timer)
