-- ===== src/Control/Timers.antt =====
-- The two one-shot timers: while their event is owed, they run or the event is queued.
use alpr_li_dar_gate_automat.Base.{
  Bool-cases, inl, inr, Bool, List, [], arith, false, length, ltb, refl, true, ℕ, ◌&&◌, ◌++◌, ◌<◌,
  ◌||◌, ◌∷◌, ◌≡◌, ◌⊎◌,
}
use alpr_li_dar_gate_automat.Platform.Api.{TimerApi, QueueApi}
use alpr_li_dar_gate_automat.Machine.{StateMachine, handle}
use alpr_li_dar_gate_automat.Machine.Types.{
  closing, opening, command_open, Event, Outputs, Reason, opened, state_eq, event_eq, motor_timeout,
  command_close,
}
use alpr_li_dar_gate_automat.Control.Controller.{GateController}
use alpr_li_dar_gate_automat.Control.Effects.{apply_policies, moving, manage_timers, execute, post}
use alpr_li_dar_gate_automat.Control.Execution.{execute-Keeps, rearm-active, Announces}
use alpr_li_dar_gate_automat.Control.Invariant.{commit}

-- Whether an event is among those listed.
abbrev pub queued : Event → List Event → Bool
queued ev [] = false
queued ev (x ∷ xs) = event_eq x ev || queued ev xs

queued-append :
    (ev : Event) (xs ys : List Event) → queued ev (xs ++ ys) ≡ (queued ev xs || queued ev ys)
queued-append ev [] ys = refl
queued-append ev (x ∷ xs) ys = ground (arith, queued-append ev xs ys)

timeout_moves :
    (m : StateMachine) (ev : Event)
    → event_eq ev motor_timeout ≡ true
    → moving m.state ≡ true
    → (handle m ev).1.transitioned ≡ true
unfolding handle
timeout_moves m motor_timeout e h = ground arith
timeout_moves m _ e h = ground arith

-- The outputs of a close that the beam refuses.
abbrev pub IsRefusal : Outputs → Type 0
IsRefusal o =
    (o.transitioned ≡ false) × (o.new_state ≡ opened) × (o.reason ≡ Reason.safety_beam_obstacle)

pub refused_close :
    (m : StateMachine) (ev : Event)
    → event_eq ev command_close ≡ true
    → m.state ≡ opened
    → (handle m ev).1.transitioned ≡ false
    → IsRefusal (handle m ev).1
unfolding handle
refused_close m command_close e h t = ground arith
refused_close m _ e h t = ground arith

-- Where an event is due, its timer is active or the event is queued.
abbrev pub Owes : Bool → ℕ → Bool → Event → List Event → Type 0
Owes due ms active ev q = due ≡ true → 0 < ms → (active ≡ true) ⊎ (queued ev q ≡ true)

module _ (Q : QueueApi Event) where
  pub queued-send :
      (q : Q.Queue) (x ev : Event)
      → queued ev (Q.waiting q) ≡ true
      → queued ev (Q.waiting (Q.send q x).0) ≡ true
  queued-send q x ev h = ground (arith, Q.waiting_send q x, queued-append ev (Q.waiting q) (x ∷ []))

  pub queued-send_self :
      (q : Q.Queue) (ev : Event)
      → length (Q.waiting q) < Q.depth q
      → event_eq ev ev ≡ true
      → queued ev (Q.waiting (Q.send q ev).0) ≡ true
  queued-send_self q ev h e =
      ground (arith, Q.waiting_send q ev, queued-append ev (Q.waiting q) (ev ∷ []))

module _ {T : TimerApi} {Q : QueueApi Event} where
  -- A moving gate has its watchdog running or expired into the queue, and an open gate its
  -- auto-close countdown, where these are enabled.
  pub record IsGuarded (c : GateController T Q) : Type 0 where
    pub watched :
        Owes
          (state_eq c.sm.state opening || state_eq c.sm.state closing)
          c.cfg.sm.motor_timeout_ms
          (T.is_active c.watchdog_timer)
          motor_timeout
          (Q.waiting c.queue)
    pub reclosing :
        Owes
          (state_eq c.sm.state opened)
          c.cfg.sm.auto_close_ms
          (T.is_active c.autoclose_timer)
          command_close
          (Q.waiting c.queue)

  pub post-IsGuarded : (c : GateController T Q) (ev : Event) → IsGuarded c → IsGuarded (post c ev)
  unfolding post
  post-IsGuarded c ev g =
      ground (arith, queued-send Q c.queue ev motor_timeout, queued-send Q c.queue ev command_close)

  -- What putting a machine and its outputs into effect does to timers and queue.
  pub record Rearmed (c : GateController T Q) (m : StateMachine) (o : Outputs)
      (d : GateController T Q) : Type 0 where
    pub sm_set : d.sm ≡ m
    pub cfg_kept : d.cfg ≡ c.cfg
    pub queue_kept : d.queue ≡ c.queue
    pub moved :
        o.transitioned ≡ true
        → (T.is_active d.watchdog_timer ≡ (moving m.state && ltb 0 c.cfg.sm.motor_timeout_ms))
          × (T.is_active d.autoclose_timer
              ≡ (state_eq m.state opened && ltb 0 c.cfg.sm.auto_close_ms))
    pub stayed :
        o.transitioned ≡ false
        → (d.watchdog_timer ≡ c.watchdog_timer) × (d.autoclose_timer ≡ c.autoclose_timer)

  pub commit-Rearmed :
      (c : GateController T Q) (m : StateMachine) (o : Outputs)
      → Announces c.sm m o
      → Rearmed c m o (commit c (m, o))
  unfolding manage_timers
  commit-Rearmed c m o a =
      let d = execute (record c { sm = m }) o in
      ground (
        arith,
        execute-Keeps (record c { sm = m }) o,
        rearm-active T d.watchdog_timer (moving o.new_state) d.cfg.sm.motor_timeout_ms,
        rearm-active T d.autoclose_timer (state_eq o.new_state opened) d.cfg.sm.auto_close_ms,
      )

  -- After an event, with the timers managed and before the policies, what was owed in front of the
  -- event is owed behind it, unless the event was a refused close.
  pub watched_after :
      (c : GateController T Q) (ev : Event) (q : List Event) (d : GateController T Q)
      → Rearmed c (handle c.sm ev).0 (handle c.sm ev).1 d
      → Announces c.sm (handle c.sm ev).0 (handle c.sm ev).1
      → Owes
          (moving c.sm.state)
          c.cfg.sm.motor_timeout_ms
          (T.is_active c.watchdog_timer)
          motor_timeout
          (ev ∷ q)
      → Owes
          (moving d.sm.state)
          d.cfg.sm.motor_timeout_ms
          (T.is_active d.watchdog_timer)
          motor_timeout
          q
  watched_after c ev q d r a w = elim (Bool-cases (handle c.sm ev).1.transitioned) [
    | inl t ↦ ground (arith, r.moved t)
    | inr f ↦ ground (arith, r.stayed f, a.stayed f, timeout_moves c.sm ev)
  ]

  pub reclosing_after :
      (c : GateController T Q) (ev : Event) (q : List Event) (d : GateController T Q)
      → Rearmed c (handle c.sm ev).0 (handle c.sm ev).1 d
      → Announces c.sm (handle c.sm ev).0 (handle c.sm ev).1
      → Owes
          (state_eq c.sm.state opened)
          c.cfg.sm.auto_close_ms
          (T.is_active c.autoclose_timer)
          command_close
          (ev ∷ q)
      → IsRefusal (handle c.sm ev).1
        ⊎ Owes
            (state_eq d.sm.state opened)
            d.cfg.sm.auto_close_ms
            (T.is_active d.autoclose_timer)
            command_close
            q
  reclosing_after c ev q d r a w = elim (Bool-cases (handle c.sm ev).1.transitioned) [
    | inl t ↦ inr (ground (arith, r.moved t))
    | inr f ↦ elim (Bool-cases (event_eq ev command_close && state_eq c.sm.state opened)) [
      | inl e ↦ inl (refused_close c.sm ev (ground arith) (ground arith) f)
      | inr n ↦ inr (ground (arith, r.stayed f, a.stayed f))
    ]
  ]

  pub apply_policies-IsGuarded :
      (c : GateController T Q) (o : Outputs)
      → Owes
          (moving c.sm.state)
          c.cfg.sm.motor_timeout_ms
          (T.is_active c.watchdog_timer)
          motor_timeout
          (Q.waiting c.queue)
      → IsRefusal o
        ⊎ Owes
            (state_eq c.sm.state opened)
            c.cfg.sm.auto_close_ms
            (T.is_active c.autoclose_timer)
            command_close
            (Q.waiting c.queue)
      → IsGuarded (apply_policies c o)
  unfolding apply_policies
  apply_policies-IsGuarded c o w r = ground (
    arith,
    rearm-active T c.autoclose_timer true c.cfg.sm.auto_close_ms,
    queued-send Q c.queue command_open motor_timeout,
    queued-send Q c.queue command_open command_close,
  )
