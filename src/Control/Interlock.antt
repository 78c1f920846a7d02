-- ===== src/Control/Interlock.antt =====
-- The two contactors, write by write: break before make.
use alpr_li_dar_gate_automat.Base.{Bool, List, [], arith, false, inl, inr, ◌∷◌, ◌≡◌, ◌⊎◌}
use alpr_li_dar_gate_automat.Platform.Api.{TimerApi, QueueApi}
use alpr_li_dar_gate_automat.Machine.Types.{Event, Action}
use alpr_li_dar_gate_automat.Drivers.Relay.{Relay, set}
use alpr_li_dar_gate_automat.Drivers.Relay.Contact.{energised, set-IsValid}
use alpr_li_dar_gate_automat.Control.Controller.{GateController, RelayWrite, relay_writes}
use alpr_li_dar_gate_automat.Control.Effects.{write_relay, write_relays, execute_action}

energised-set : {T : TimerApi} (r : Relay T) (on : Bool) → energised (set r on) ≡ on
unfolding set
energised-set r on = ground (arith, (set-IsValid r on).truthful)

module _ {T : TimerApi} {Q : QueueApi Event} where
  -- At most one contactor is energised.
  abbrev pub Apart : GateController T Q → Type 0
  Apart c = (energised c.relay_open ≡ false) ⊎ (energised c.relay_close ≡ false)

  -- Before the first write, between any two, and after the last.
  abbrev pub Throughout :
      (GateController T Q → Type 0) → GateController T Q → List RelayWrite → Type 0
  Throughout P c [] = P c
  Throughout P c (w ∷ ws) = P c × Throughout P (write_relay c w) ws

  action-Apart :
      (c : GateController T Q) (a : Action) → Apart c → Throughout Apart c (relay_writes a)
  unfolding relay_writes write_relay
  action-Apart c Action.drive_motor_open h =
      (h, (inr (energised-set c.relay_close false), inr (energised-set c.relay_close false)))
  action-Apart c Action.drive_motor_close h =
      (h, (inl (energised-set c.relay_open false), inl (energised-set c.relay_open false)))
  action-Apart c Action.stop_motor h =
      (h, (inl (energised-set c.relay_open false), inl (energised-set c.relay_open false)))
  action-Apart c _ h = h

  Throughout-last :
      (P : GateController T Q → Type 0) (c : GateController T Q) (ws : List RelayWrite)
      → Throughout P c ws
      → P (write_relays c ws)
  unfolding write_relays
  Throughout-last P c [] h = h
  Throughout-last P c (w ∷ ws) h = Throughout-last P (write_relay c w) ws h.1

  abbrev SameRelays : GateController T Q → GateController T Q → Type 0
  SameRelays c d = (c.relay_open ≡ d.relay_open) × (c.relay_close ≡ d.relay_close)

  execute_action_relays :
      (c : GateController T Q) (a : Action)
      → SameRelays (execute_action c a) (write_relays c (relay_writes a))
  unfolding execute_action relay_writes
  execute_action_relays c a = ground arith

  -- Each action of a list keeps the contactors apart at every instant of its execution.
  abbrev pub ApartAlong : GateController T Q → List Action → Type 0
  ApartAlong c [] = Apart c
  ApartAlong c (a ∷ rest) =
      Throughout Apart c (relay_writes a) × ApartAlong (execute_action c a) rest

  -- Executing any list of actions, in whatever order the state machine emitted them, never has
  -- both contactors energised, not even between the two writes of one action.
  pub execute_actions-Apart :
      (c : GateController T Q) (as' : List Action) → Apart c → ApartAlong c as'
  execute_actions-Apart c [] h = h
  execute_actions-Apart c (a ∷ rest) h = (
    action-Apart c a h,
    execute_actions-Apart (execute_action c a) rest (
        after-action (execute_action c a) (write_relays c (relay_writes a))
          (execute_action_relays c a)
          (Throughout-last Apart c (relay_writes a) (action-Apart c a h))),
  )
    where
      after-action : (d e : GateController T Q) → SameRelays d e → Apart e → Apart d
      after-action d e s h = ground arith
