-- ===== src/Control/Reverse.antt =====
-- The reverse-on-beam policy: a beam break while closing drives the gate open again.
use alpr_li_dar_gate_automat.Control.Safety.{IsSafe-of_sound}
use alpr_li_dar_gate_automat.Base.{[], false, length, ◌++◌, ◌<◌, List, arith, true, ◌∷◌, ◌≡◌}
use alpr_li_dar_gate_automat.Drivers.Relay.Contact.{energised}
use alpr_li_dar_gate_automat.Platform.Api.{TimerApi, QueueApi}
use alpr_li_dar_gate_automat.Machine.{StateMachine, handle}
use alpr_li_dar_gate_automat.Machine.Types.{
  Event, Reason, opening, closing, stopped_close, command_open, safety_beam_tripped,
}
use alpr_li_dar_gate_automat.Control.Controller.{GateController, pumps}
use alpr_li_dar_gate_automat.Control.Effects.{pump, pump_event, apply_policies, post}
use alpr_li_dar_gate_automat.Control.Execution.{handle-Announces}
use alpr_li_dar_gate_automat.Control.Invariant.{IsSound, step-IsSound}
use alpr_li_dar_gate_automat.Control.Steps.{step}
use alpr_li_dar_gate_automat.Control.Timers.{commit-Rearmed}

tripped :
    (m : StateMachine)
    → m.state ≡ closing
    → let (m', o) = handle m safety_beam_tripped in
      (m'.state ≡ stopped_close)
      × (o.new_state ≡ stopped_close)
      × (o.transitioned ≡ true)
      × (o.reason ≡ Reason.safety_beam_obstacle)
unfolding handle
tripped m h = ground arith

reopened : (m : StateMachine) → m.state ≡ stopped_close → (handle m command_open).0.state ≡ opening
unfolding handle
reopened m h = ground arith

module _ {T : TimerApi} {Q : QueueApi Event} where
  pump-IsSound : (c : GateController T Q) → IsSound c → IsSound (pump c).0
  pump-IsSound c v = unfold step in step-IsSound c pumps v

  pump_first :
      (c : GateController T Q) (ev : Event) (rest : List Event)
      → Q.waiting c.queue ≡ ev ∷ rest
      → ((pump c).0 ≡ (pump_event (record c { queue = (Q.receive c.queue).0 }) ev).0)
        × (Q.waiting (Q.receive c.queue).0 ≡ rest)
  unfolding pump
  pump_first c ev rest h = ground (arith, Q.receive_first c.queue, Q.waiting_receive c.queue)

  pump_event-trip :
      (c : GateController T Q)
      → IsSound c
      → c.sm.state ≡ closing
      → c.cfg.reverse_on_beam ≡ true
      → let d = (pump_event c safety_beam_tripped).0 in
        (d.sm.state ≡ stopped_close) × (d.queue ≡ (Q.send c.queue command_open).0) × (d.cfg ≡ c.cfg)
  unfolding pump_event apply_policies post
  pump_event-trip c v h p =
      let (m, o) = handle c.sm safety_beam_tripped in
      let r = commit-Rearmed c m o (handle-Announces c.sm safety_beam_tripped v.machine_valid) in
      ground (arith, r, tripped c.sm h)

  pump_event-open :
      (c : GateController T Q)
      → IsSound c
      → c.sm.state ≡ stopped_close
      → (pump_event c command_open).0.sm.state ≡ opening
  unfolding pump_event apply_policies post
  pump_event-open c v h =
      let (m, o) = handle c.sm command_open in
      let r = commit-Rearmed c m o (handle-Announces c.sm command_open v.machine_valid) in
      ground (arith, r, reopened c.sm h)

  pump_reopens :
      (d : GateController T Q)
      → IsSound d
      → d.sm.state ≡ stopped_close
      → Q.waiting d.queue ≡ command_open ∷ []
      → (energised (pump d).0.relay_open ≡ true)
        × (energised (pump d).0.relay_close ≡ false)
        × ((pump d).0.state_snapshot ≡ opening)
  pump_reopens d v h q =
      let (same, _) = pump_first d command_open [] q in
      let st = pump_event-open (record d { queue = (Q.receive d.queue).0 }) (ground (arith, v)) h in
      let w = pump-IsSound d v in ground (arith, same, st, w, IsSafe-of_sound (pump d).0 w)

  -- A beam break that the pump takes from the queue while the gate is closing first drops both
  -- contactors and queues the reopening behind what is waiting; once the reopening is all that
  -- waits, as it is when nothing was behind the beam break, the next round drives the gate open.
  pub pump_reverses :
      (c : GateController T Q) (rest : List Event)
      → IsSound c
      → c.sm.state ≡ closing
      → c.cfg.reverse_on_beam ≡ true
      → Q.waiting c.queue ≡ safety_beam_tripped ∷ rest
      → length rest < Q.depth c.queue
      → let d = (pump c).0 in
        (Q.waiting d.queue ≡ rest ++ command_open ∷ [])
        × (energised d.relay_open ≡ false)
        × (energised d.relay_close ≡ false)
        × (rest ≡ []
            → (energised (pump d).0.relay_open ≡ true)
              × (energised (pump d).0.relay_close ≡ false)
              × ((pump d).0.state_snapshot ≡ opening))
  pump_reverses c rest v h p q room =
      let d = (pump c).0 in
      let (same, left) = pump_first c safety_beam_tripped rest q in
      let (st, sent, kept) =
        pump_event-trip (record c { queue = (Q.receive c.queue).0 }) (ground (arith, v)) h p in
      let dv = pump-IsSound c v in
      let safe = IsSafe-of_sound d dv in
      let waits : Q.waiting d.queue ≡ rest ++ command_open ∷ [] = ground (
        arith,
        same,
        sent,
        left,
        Q.waiting_send (Q.receive c.queue).0 command_open,
        Q.depth_receive c.queue,
      ) in
      (
        waits,
        ground (arith, same, st, dv, safe),
        ground (arith, same, st, dv, safe),
        λ e. pump_reopens d dv (ground (arith, same, st)) (ground arith),
      )
