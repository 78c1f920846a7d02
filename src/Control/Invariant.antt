-- ===== src/Control/Invariant.antt =====
-- What holds of a controller between two steps, and that every step keeps it.
use alpr_li_dar_gate_automat.Drivers.LimitSwitch
use alpr_li_dar_gate_automat.Control.Steps.{step, run}
use alpr_li_dar_gate_automat.Machine.Invariant.{handle-IsValid}
use alpr_li_dar_gate_automat.Base.{
  List, Option-cases, [], ap, sym, ◌∙◌, ◌∷◌, Bool-cases, inl, inr, refl, true, arith, ◌≡◌,
}
use alpr_li_dar_gate_automat.Platform.Api.{TimerApi, QueueApi}
use alpr_li_dar_gate_automat.Machine
use alpr_li_dar_gate_automat.Machine.{StateMachine, handle}
use alpr_li_dar_gate_automat.Machine.Types.{Event, Outputs, state_eq, opened}
use alpr_li_dar_gate_automat.Machine.Invariant
use alpr_li_dar_gate_automat.Drivers.Relay.Contact
use alpr_li_dar_gate_automat.Drivers.Relay.Contact.{set-IsValid}
use alpr_li_dar_gate_automat.Control.Controller.{
  pumps, watchdog_fires, autoclose_fires, Stimulus, GateController,
}
use alpr_li_dar_gate_automat.Control.Effects.{
  init_by, apply_policies, pump, pump_event, resolve_boot_position, manage_timers, execute, moving,
}
use alpr_li_dar_gate_automat.Control.Execution.{
  init_by-IsValid, init_by-Announces, handle-Announces, Drives, Announces, rearm-active,
  execute-Keeps, execute_entry, execute_quiet, execute_actions-contacts,
}

module _ {T : TimerApi} {Q : QueueApi Event} where
  -- The relays stand as the machine's state wants them and their coils do as the drivers say,
  -- the published snapshot is the machine's, the motor watchdog runs only while the gate moves and
  -- the auto-close countdown only while it is open.
  pub record IsSound (c : GateController T Q) : Type 0 where
    pub machine_valid : Machine.Invariant.IsValid c.sm
    pub drives : Drives c.sm.state c.relay_open.state c.relay_close.state
    pub open_valid : Contact.IsValid c.relay_open
    pub close_valid : Contact.IsValid c.relay_close
    pub state_published : c.state_snapshot ≡ c.sm.state
    pub reason_published : c.reason_snapshot ≡ c.sm.reason
    pub watchdog_moving : T.is_active c.watchdog_timer ≡ true → moving c.sm.state ≡ true
    pub autoclose_open : T.is_active c.autoclose_timer ≡ true → c.sm.state ≡ opened

  -- `commit` puts the machine and its outputs into effect, as `pump_event` and
  -- `resolve_boot_position` do.
  abbrev pub commit : GateController T Q → StateMachine × Outputs → GateController T Q
  commit c (m, o) = manage_timers (execute (record c { sm = m }) o) o

  execute-Drives :
      (c : GateController T Q) (m : StateMachine) (o : Outputs)
      → Drives c.sm.state c.relay_open.state c.relay_close.state
      → Announces c.sm m o
      → let d = execute (record c { sm = m }) o in
        Drives m.state d.relay_open.state d.relay_close.state
  execute-Drives c m o v a = elim (Bool-cases o.transitioned) [
    | inl t ↦
        let (acts, reset) = a.moved t in
        execute_entry (record c { sm = m }) o m.state acts (λ e. ground (arith, reset e))
    | inr f ↦
        let (same, _, acts) = a.stayed f in
        ground (arith, execute_quiet (record c { sm = m }) o acts)
  ]

  execute-contacts :
      (c : GateController T Q) (o : Outputs)
      → Contact.IsValid c.relay_open × Contact.IsValid c.relay_close
      → Contact.IsValid (execute c o).relay_open × Contact.IsValid (execute c o).relay_close
  unfolding execute
  execute-contacts c o v = execute_actions-contacts c o.actions v

  execute-snapshots :
      (c : GateController T Q) (o : Outputs)
      → ((execute c o).state_snapshot ≡ (execute c o).sm.state)
        × ((execute c o).reason_snapshot ≡ (execute c o).sm.reason)
  unfolding execute
  execute-snapshots c o = (refl, refl)

  commit-IsSound :
      (c : GateController T Q) (m : StateMachine) (o : Outputs)
      → IsSound c
      → Machine.Invariant.IsValid m
      → Announces c.sm m o
      → IsSound (commit c (m, o))
  unfolding manage_timers
  commit-IsSound c m o v mv a =
      let d = execute (record c { sm = m }) o in
      ground (
        arith,
        execute-Keeps (record c { sm = m }) o,
        execute-Drives c m o v.drives a,
        execute-contacts (record c { sm = m }) o (v.open_valid, v.close_valid),
        execute-snapshots (record c { sm = m }) o,
        rearm-active T d.watchdog_timer (moving o.new_state) d.cfg.sm.motor_timeout_ms,
        rearm-active T d.autoclose_timer (state_eq o.new_state opened) d.cfg.sm.auto_close_ms,
      )

  apply_policies-IsSound :
      (c : GateController T Q) (o : Outputs)
      → IsSound c
      → o.new_state ≡ c.sm.state
      → IsSound (apply_policies c o)
  unfolding apply_policies
  apply_policies-IsSound c o v e =
      ground (arith, rearm-active T c.autoclose_timer true c.cfg.sm.auto_close_ms)

  pub resolve_boot_position-IsSound :
      (c : GateController T Q) → IsSound c → IsSound (resolve_boot_position c)
  unfolding resolve_boot_position
  resolve_boot_position-IsSound c v =
      let open_active = LimitSwitch.is_active c.limit_open in
      let closed_active = LimitSwitch.is_active c.limit_closed in
      let (m, o) = init_by open_active closed_active c.sm in
      commit-IsSound c m o v (init_by-IsValid open_active closed_active c.sm)
        (init_by-Announces open_active closed_active c.sm)

  pub commit-sm :
      (c : GateController T Q) (m : StateMachine) (o : Outputs) → (commit c (m, o)).sm ≡ m
  unfolding manage_timers
  commit-sm c m o = ground (arith, execute-Keeps (record c { sm = m }) o)

  pub pump_event-IsSound :
      (c : GateController T Q) (ev : Event) → IsSound c → IsSound (pump_event c ev).0
  unfolding pump_event
  pump_event-IsSound c ev v =
      let (m, o) = handle c.sm ev in
      let a = handle-Announces c.sm ev v.machine_valid in
      let d = commit c (m, o) in
      let dv = commit-IsSound c m o v (handle-IsValid c.sm ev v.machine_valid) a in
      let p =
        apply_policies-IsSound d o dv (a.names_state ∙ sym (ap (λ x. x.state) (commit-sm c m o))) in
      ground (arith, resolve_boot_position-IsSound (apply_policies d o) p)

  pump-IsSound : (c : GateController T Q) → IsSound c → IsSound (pump c).0
  unfolding pump
  pump-IsSound c v = elim (Option-cases (Q.receive c.queue).1) [
    | inl e ↦ rw (e, pump) (ground arith)
    | inr (ev, e) ↦
        rw (e, pump)
          (pump_event-IsSound (record c { queue = (Q.receive c.queue).0 }) ev (ground arith))
  ]

  -- Every step of a controller, whatever its surroundings do, keeps it sound.
  pub step-IsSound : (c : GateController T Q) (s : Stimulus) → IsSound c → IsSound (step c s)
  unfolding step
  step-IsSound c pumps v = pump-IsSound c v
  step-IsSound c watchdog_fires v = ground (arith, T.expire_inactive c.watchdog_timer)
  step-IsSound c autoclose_fires v = ground (arith, T.expire_inactive c.autoclose_timer)
  step-IsSound c _ v = ground arith

  pub run-IsSound : (c : GateController T Q) (ss : List Stimulus) → IsSound c → IsSound (run c ss)
  unfolding run
  run-IsSound c [] v = v
  run-IsSound c (s ∷ ss) v = run-IsSound (step c s) ss (step-IsSound c s v)
