-- ===== src/Control/Execution.antt =====
-- What the outputs of the machine do to the relays and the timers, and what they leave alone.
use alpr_li_dar_gate_automat.Base.{
  List, [], false, ltb, true, ℕ, ◌&&◌, ◌*◌, ◌∷◌, ◌⊎◌, Bool, arith, ◌≡◌,
}
use alpr_li_dar_gate_automat.Platform.Api.{TimerApi, QueueApi}
use alpr_li_dar_gate_automat.Machine
use alpr_li_dar_gate_automat.Machine.{StateMachine, handle}
use alpr_li_dar_gate_automat.Machine.Types.{
  Event, Action, Outputs, State, opening, closing, state_eq, initializing, faulted,
}
use alpr_li_dar_gate_automat.Machine.Graph.{entry_actions, handle-IsReport}
use alpr_li_dar_gate_automat.Machine.Invariant
use alpr_li_dar_gate_automat.Drivers.Relay.{set}
use alpr_li_dar_gate_automat.Drivers.Relay.Contact
use alpr_li_dar_gate_automat.Drivers.Relay.Contact.{set-IsValid}
use alpr_li_dar_gate_automat.Control.Controller.{
  GateController, RelayWrite, write_open, write_close, relay_writes,
}
use alpr_li_dar_gate_automat.Control.Effects.{
  write_relay, write_relays, execute_action, execute_actions, execute, rearm, init_by,
}

-- The motor relays as a state wants them.
abbrev pub Drives : State → Bool → Bool → Type 0
Drives s open_on close_on = (open_on ≡ state_eq s opening) × (close_on ≡ state_eq s closing)

-- What the outputs `o` may be when the machine goes from `m` to `m'`.
pub record Announces (m m' : StateMachine) (o : Outputs) : Type 0 where
  pub names_state : o.new_state ≡ m'.state
  pub moved :
      o.transitioned ≡ true
      → (o.actions ≡ entry_actions m'.state) × (m'.state ≡ initializing → m.state ≡ faulted)
  pub stayed :
      o.transitioned ≡ false
      → (m'.state ≡ m.state)
        × (m'.reason ≡ m.reason)
        × ((o.actions ≡ []) ⊎ (o.actions ≡ Action.emit_telemetry_state_changed ∷ []))

reset_from_fault :
    (m : StateMachine) (ev : Event)
    → (handle m ev).1.transitioned ≡ true
    → (handle m ev).0.state ≡ initializing
    → m.state ≡ faulted
unfolding handle
reset_from_fault m ev t e = ground arith

pub handle-Announces :
    (m : StateMachine) (ev : Event)
    → Machine.Invariant.IsValid m
    → Announces m (handle m ev).0 (handle m ev).1
handle-Announces m ev v =
    let r = handle-IsReport m ev v in
    record {
      names_state = r.names_state;
      moved = λ t. ((r.moved t).2, reset_from_fault m ev t);
      stayed = λ t. ground (arith, r.stayed t);
    }

pub init_by-Announces :
    (o c : Bool) (m : StateMachine) → Announces m (init_by o c m).0 (init_by o c m).1
unfolding init_by Machine.init_closed Machine.init_open Machine.init_unknown
init_by-Announces o c m = ground arith

pub init_by-IsValid : (o c : Bool) (m : StateMachine) → Machine.Invariant.IsValid (init_by o c m).0
unfolding init_by Machine.init_closed Machine.init_open Machine.init_unknown
init_by-IsValid o c m = ground arith

pub rearm-active :
    (T : TimerApi) (t : T.Timer) (wanted : Bool) (ms : ℕ)
    → T.is_active (rearm T t wanted ms) ≡ (wanted && ltb 0 ms)
unfolding rearm
rearm-active T t wanted ms = ground (
  arith,
  T.stop_inactive t,
  T.start_once_active t (ms * 1000),
  T.start_once_active (T.stop t) (ms * 1000),
)

module _ {T : TimerApi} {Q : QueueApi Event} where
  -- The parts of the controller that `execute` leaves alone.
  pub record Keeps (c d : GateController T Q) : Type 0 where
    pub cfg_kept : d.cfg ≡ c.cfg
    pub sm_kept : d.sm ≡ c.sm
    pub queue_kept : d.queue ≡ c.queue
    pub watchdog_kept : d.watchdog_timer ≡ c.watchdog_timer
    pub autoclose_kept : d.autoclose_timer ≡ c.autoclose_timer
    pub limit_open_kept : d.limit_open ≡ c.limit_open
    pub limit_closed_kept : d.limit_closed ≡ c.limit_closed
    pub beam_kept : d.beam ≡ c.beam
    pub registered_kept : d.registered ≡ c.registered

  execute_action-Keeps : (c : GateController T Q) (a : Action) → Keeps c (execute_action c a)
  unfolding execute_action write_relays write_relay relay_writes
  execute_action-Keeps c a = ground arith

  pub Keeps-trans : {c d e : GateController T Q} → Keeps c d → Keeps d e → Keeps c e
  Keeps-trans h k = ground arith

  pub execute_actions-Keeps :
      (c : GateController T Q) (as' : List Action) → Keeps c (execute_actions c as')
  unfolding execute_actions
  execute_actions-Keeps c [] = ground arith
  execute_actions-Keeps c (a ∷ rest) =
      Keeps-trans (execute_action-Keeps c a) (execute_actions-Keeps (execute_action c a) rest)

  pub execute-Keeps : (c : GateController T Q) (o : Outputs) → Keeps c (execute c o)
  unfolding execute
  execute-Keeps c o = ground (arith, execute_actions-Keeps c o.actions)

  pub execute_entry :
      (c : GateController T Q) (o : Outputs) (s : State)
      → o.actions ≡ entry_actions s
      → (s ≡ initializing → Drives s c.relay_open.state c.relay_close.state)
      → Drives s (execute c o).relay_open.state (execute c o).relay_close.state
  unfolding execute execute_actions execute_action write_relays write_relay relay_writes set
  execute_entry c o s e i = ground arith

  pub execute_quiet :
      (c : GateController T Q) (o : Outputs)
      → (o.actions ≡ []) ⊎ (o.actions ≡ Action.emit_telemetry_state_changed ∷ [])
      → ((execute c o).relay_open ≡ c.relay_open) × ((execute c o).relay_close ≡ c.relay_close)
  unfolding execute execute_actions execute_action write_relays relay_writes
  execute_quiet c o e = ground arith

  write_relay-contacts :
      (c : GateController T Q) (w : RelayWrite)
      → Contact.IsValid c.relay_open × Contact.IsValid c.relay_close
      → Contact.IsValid (write_relay c w).relay_open × Contact.IsValid (write_relay c w).relay_close
  unfolding write_relay
  write_relay-contacts c (write_open on) (v, w) = (set-IsValid c.relay_open on, w)
  write_relay-contacts c (write_close on) (v, w) = (v, set-IsValid c.relay_close on)

  write_relays-contacts :
      (c : GateController T Q) (ws : List RelayWrite)
      → Contact.IsValid c.relay_open × Contact.IsValid c.relay_close
      → Contact.IsValid (write_relays c ws).relay_open
        × Contact.IsValid (write_relays c ws).relay_close
  unfolding write_relays
  write_relays-contacts c [] v = v
  write_relays-contacts c (w ∷ ws) v =
      write_relays-contacts (write_relay c w) ws (write_relay-contacts c w v)

  execute_action-contacts :
      (c : GateController T Q) (a : Action)
      → Contact.IsValid c.relay_open × Contact.IsValid c.relay_close
      → Contact.IsValid (execute_action c a).relay_open
        × Contact.IsValid (execute_action c a).relay_close
  unfolding execute_action
  execute_action-contacts c a v = ground (arith, write_relays-contacts c (relay_writes a) v)

  pub execute_actions-contacts :
      (c : GateController T Q) (as' : List Action)
      → Contact.IsValid c.relay_open × Contact.IsValid c.relay_close
      → Contact.IsValid (execute_actions c as').relay_open
        × Contact.IsValid (execute_actions c as').relay_close
  unfolding execute_actions
  execute_actions-contacts c [] v = v
  execute_actions-contacts c (a ∷ rest) v =
      execute_actions-contacts (execute_action c a) rest (execute_action-contacts c a v)
