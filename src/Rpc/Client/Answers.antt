-- ===== src/Rpc/Client/Answers.antt =====
-- What the peer is told of a command.
use mathlib.Core.List.{append_assoc}
use alpr_li_dar_gate_automat.Machine.Types.{state_eq, State, Reason, none}
use alpr_li_dar_gate_automat.Base.{
  Option, ap, if◌then◌else◌, ltb, ◌*◌, ◌-◌, ◌/◌, ◌∙◌, length-append, refl, u32_mod, ◌%◌, ◌+◌, List,
  [], arith, false, length, none, some, take, true, ℕ, ◌++◌, ◌<◌, ◌∷◌, ◌≡◌,
}
use alpr_li_dar_gate_automat.Rpc.Client.{
  GateState, Timestamp, CommandAck, completed_ack, now_ms, send_ack_completed, send_ack_received,
  handle_command, notify_gate_event, to_wire_state, fill_wallclock, received_ack, ack,
  ControlEnvelope, Reading, ControlClient, DispatchResult, GateCommand, send_envelope, Wire,
}
use alpr_li_dar_gate_automat.Rpc.Framing.{make_frame_header}
use alpr_li_dar_gate_automat.Rpc.Tracker.{
  arm, on_gate_event, resolve, max_id_length, CommandTracker, no_verdict,
}

-- A gRPC message on the wire: the flag 0, then the length, the highest byte first, then the bytes.
abbrev pub framed_ack : List ℕ → List ℕ
framed_ack bytes =
    let n = length bytes in
    0 ∷ n / 16_777_216 % 256 ∷ n / 65_536 % 256 ∷ n / 256 % 256 ∷ n % 256 ∷ bytes

make_frame_header_lem :
    (bytes : List ℕ) → make_frame_header (length bytes) ++ bytes ≡ framed_ack bytes
unfolding make_frame_header
make_frame_header_lem bytes = ground arith

-- The wall clock, if it has been set: it is before November 2023 until then.
abbrev pub told_at : Reading → Option Timestamp
told_at r =
    if ltb r.tv_sec 1_700_000_000
    then none
    else some (record { seconds = r.tv_sec; nanos = 1_000 * r.tv_usec })

-- The states of the protocol: it has none for a gate that starts or that stands halfway.
abbrev pub shown_as : State → GateState
shown_as State.closed = GateState.closed
shown_as State.opening = GateState.opening
shown_as State.opened = GateState.opened
shown_as State.closing = GateState.closing
shown_as State.faulted = GateState.fault
shown_as _ = GateState.unknown

to_wire_state_lem : (s : State) → to_wire_state s ≡ shown_as s
unfolding to_wire_state
to_wire_state_lem s = ground arith

module _ {R : Type 0} (wire : Wire R) where
  -- A text as its field holds it, which keeps a byte for the end.
  abbrev pub field_of : ℕ → List ℕ → List ℕ
  field_of size text = take (size - 1) text

  -- What the peer is to be told at first, and in the end.
  abbrev pub first_answer : Reading → ControlClient → List ℕ → CommandAck
  first_answer received c command_id = record {
    command_id = field_of wire.command_id_size command_id;
    received_ts = told_at received;
    completed_ts = none;
    completed = false;
    success = false;
    error_text = [];
    state_after = c.last_wire_state;
  }

  abbrev pub last_answer : Reading → State → List ℕ → CommandAck
  last_answer arrived goal command_id = record {
    command_id = field_of wire.command_id_size (take max_id_length command_id);
    received_ts = none;
    completed_ts = told_at arrived;
    completed = true;
    success = true;
    error_text = [];
    state_after = shown_as goal;
  }

  received_ack_lem :
      (r : Reading) (c : ControlClient) (id : List ℕ)
      → received_ack wire r c id ≡ first_answer r c id
  unfolding received_ack fill_wallclock
  received_ack_lem r c id = ground arith

  completed_ack_lem :
      (r : Reading) (c : ControlClient) (goal : State) (id error : List ℕ)
      → c.last_wire_state ≡ to_wire_state goal
      → completed_ack wire r c (take max_id_length id) true error ≡ last_answer r goal id
  unfolding completed_ack fill_wallclock
  completed_ack_lem r c goal id error h = ground (arith, h, to_wire_state_lem goal)

  -- An envelope that can be encoded goes out on an open stream that has room.
  send_envelope_queued :
      (c : ControlClient) (env : ControlEnvelope R) (bytes : List ℕ)
      → wire.encode 507 env ≡ some bytes
      → c.connected ≡ true
      → length c.out_queue < 8
      → (send_envelope wire c env).0 ≡ record c { out_queue = c.out_queue ++ framed_ack bytes ∷ [] }
  unfolding send_envelope
  send_envelope_queued c env bytes e connected room =
      ground (arith, e, connected, room, make_frame_header_lem bytes)

  arm_idle :
      (t : CommandTracker) (id : List ℕ) (goal : State) (deadline : ℕ)
      → t.armed ≡ false
      → arm t id goal deadline ≡ (
        record {
          id = take max_id_length id;
          terminal_ok = goal;
          deadline_ms = deadline;
          armed = true;
        },
        no_verdict,
      )
  unfolding arm
  arm_idle t id goal deadline h = ground (arith, h)

  state_eq_refl : (s : State) → state_eq s s ≡ true
  state_eq_refl s = ground arith

  reaches_goal :
      (t : CommandTracker) (reason : Reason)
      → t.armed ≡ true
      → on_gate_event t t.terminal_ok reason true ≡ (
        record t { armed = false },
        record { fire = true; success = true; command_id = t.id; error = "" },
      )
  unfolding on_gate_event resolve
  reaches_goal t reason h = ground (arith, h, state_eq_refl t.terminal_ok)

  -- The client once a command is in flight.
  abbrev in_flight :
      (GateCommand R → DispatchResult)
      → Reading
      → ControlClient
      → GateCommand R
      → List ℕ
      → ControlClient
  in_flight dispatch received c cmd bytes = record c {
    out_queue = c.out_queue ++ framed_ack bytes ∷ [];
    tracker = record {
      id = take max_id_length cmd.command_id;
      terminal_ok = (dispatch cmd).terminal_ok;
      deadline_ms = (now_ms received + c.cfg.command_deadline_ms) % u32_mod;
      armed = true;
    };
  }

  handled :
      (dispatch : GateCommand R → DispatchResult) (received : Reading) (c : ControlClient)
      (cmd : GateCommand R) (bytes : List ℕ)
      → c.connected ≡ true
      → length c.out_queue < 8
      → c.tracker.armed ≡ false
      → (dispatch cmd).accepted ≡ true
      → (dispatch cmd).completed_now ≡ false
      → (dispatch cmd).external_completion ≡ false
      → wire.encode 507 (ack (received_ack wire received c cmd.command_id)) ≡ some bytes
      → handle_command wire (some dispatch) received c cmd ≡ in_flight dispatch received c cmd bytes
  unfolding handle_command send_ack_received
  handled dispatch received c cmd bytes connected room idle accepted later tracked e =
      let deadline = (now_ms received + c.cfg.command_deadline_ms) % u32_mod in
      rw
        (send_envelope_queued c (ack (received_ack wire received c cmd.command_id)) bytes e
          connected room)
        (ground (
          arith,
          accepted,
          later,
          tracked,
          arm_idle c.tracker cmd.command_id (dispatch cmd).terminal_ok deadline idle,
        ))

  concluded :
      (arrived : Reading) (c : ControlClient) (reason : Reason) (bytes : List ℕ)
      → c.connected ≡ true
      → length c.out_queue < 8
      → c.tracker.armed ≡ true
      → let c' = record c {
        last_wire_state = to_wire_state c.tracker.terminal_ok;
        tracker = record c.tracker { armed = false };
      } in
        wire.encode 507 (ack (completed_ack wire arrived c' c.tracker.id true (wire.literal "")))
          ≡ some bytes
        → notify_gate_event wire arrived c c.tracker.terminal_ok reason true
          ≡ record c' { out_queue = c.out_queue ++ framed_ack bytes ∷ [] }
  unfolding notify_gate_event send_ack_completed
  concluded arrived c reason bytes connected room armed e =
      let c' = record c {
        last_wire_state = to_wire_state c.tracker.terminal_ok;
        tracker = record c.tracker { armed = false };
      } in
      rw (reaches_goal c.tracker reason armed) (
        send_envelope_queued c'
          (ack (completed_ack wire arrived c' c.tracker.id true (wire.literal ""))) bytes e
          connected room)

  -- A command that moves the gate, while no other is in flight: on an open stream with room for two
  -- frames, the peer is told, under the identifier of the command and with the time and the state at
  -- the time, that it was received and is not completed; when the gate then reaches the state that
  -- was commanded, it is told, under the same identifier cut to the tracker's buffer and with that
  -- state, that it succeeded; and no command is in flight any more. The times are left out while
  -- the wall clock is not set.
  pub command_completes :
      (dispatch : GateCommand R → DispatchResult) (received arrived : Reading) (c : ControlClient)
      (cmd : GateCommand R) (reason : Reason) (first_bytes last_bytes : List ℕ)
      → c.connected ≡ true
      → length c.out_queue < 7
      → c.tracker.armed ≡ false
      → (dispatch cmd).accepted ≡ true
      → (dispatch cmd).completed_now ≡ false
      → (dispatch cmd).external_completion ≡ false
      → let goal = (dispatch cmd).terminal_ok in
        wire.encode 507 (ack (first_answer received c cmd.command_id)) ≡ some first_bytes
        → wire.encode 507 (ack (last_answer arrived goal cmd.command_id)) ≡ some last_bytes
        → let c' =
            notify_gate_event wire arrived
              (handle_command wire (some dispatch) received c cmd)
              goal
              reason
              true in
          (c'.out_queue ≡ c.out_queue ++ framed_ack first_bytes ∷ framed_ack last_bytes ∷ [])
          × (c'.tracker.armed ≡ false)
          × (c'.last_wire_state ≡ shown_as goal)
  command_completes dispatch received arrived c cmd reason first_bytes last_bytes connected room
        idle accepted later tracked e1 e2 =
      let c₁ = in_flight dispatch received c cmd first_bytes in
      let goal = (dispatch cmd).terminal_ok in
      let told = received_ack_lem received c cmd.command_id in
      let start =
        handled dispatch received c cmd first_bytes connected (omega (arith, room)) idle accepted
          later tracked (ap (λ a. wire.encode 507 (ack a)) told ∙ e1) in
      let done =
        completed_ack_lem arrived
          (record c₁ {
            last_wire_state = to_wire_state goal;
            tracker = record c₁.tracker { armed = false };
          })
          goal cmd.command_id (wire.literal "") refl in
      let end' =
        concluded arrived c₁ reason last_bytes connected
          (omega (arith, room, length-append c.out_queue (framed_ack first_bytes ∷ []))) refl
          (ap (λ a. wire.encode 507 (ack a)) done ∙ e2) in
      rw start (
        rw end' (
          append_assoc c.out_queue (framed_ack first_bytes ∷ []) (framed_ack last_bytes ∷ []),
          refl,
          to_wire_state_lem goal,
        ))
