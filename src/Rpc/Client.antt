-- ===== src/Rpc/Client.antt =====
-- control_client.cpp: what the client sends, and how it answers commands.
use Prim.Native.String.{String}
use alpr_li_dar_gate_automat.Rpc.Framing.{make_frame_header, frame_header_size}
use alpr_li_dar_gate_automat.Rpc.Tracker.{on_gate_event, arm, on_tick, CommandTracker, Verdict}
use alpr_li_dar_gate_automat.Machine.Types.{Reason, State, none}
use alpr_li_dar_gate_automat.Base.{
  u32_mod, Bool, List, Option, [], false, if◌then◌else◌, leb, length, ltb, none, not, some, sub32,
  take, true, ℕ, ◌%◌, ◌&&◌, ◌*◌, ◌++◌, ◌+◌, ◌-◌, ◌/◌, ◌∷◌,
}
pub mod Backoff
pub mod Answers
pub mod Queue

-- The numbers of the wire: `unknown` is 0.
pub data GateState : Type 0 where
  unknown closed opening opened closing fault lockdown : GateState

unfoldable pub to_wire_state : State → GateState
to_wire_state State.closed = GateState.closed
to_wire_state State.opening = GateState.opening
to_wire_state State.opened = GateState.opened
to_wire_state State.closing = GateState.closing
to_wire_state State.faulted = GateState.fault
to_wire_state State.initializing = GateState.unknown
to_wire_state State.stopped_open = GateState.unknown
to_wire_state State.stopped_close = GateState.unknown

-- Seconds and nanoseconds.
pub record Timestamp : Type 0 where
  pub seconds : ℕ
  pub nanos : ℕ

-- What the clocks and the heap say at a call.
pub record Reading : Type 0 where
  pub timer_us : ℕ
  pub tv_sec : ℕ
  pub tv_usec : ℕ
  pub free_heap : ℕ
  pub minimum_free_heap : ℕ

abbrev pub now_ms : Reading → ℕ
now_ms r = r.timer_us / 1_000 % u32_mod

unfoldable pub fill_wallclock : Reading → Option Timestamp
fill_wallclock r =
    if ltb r.tv_sec 1_700_000_000
    then none
    else some (record { seconds = r.tv_sec; nanos = r.tv_usec * 1_000 })

-- A buffer of `cap` bytes holds one byte less of the text.
abbrev pub copy_str : ℕ → List ℕ → List ℕ
copy_str cap src = take (cap - 1) src

pub record Telemetry : Type 0 where
  pub gate_id : List ℕ
  pub sent_ts : Option Timestamp
  pub gate_state : GateState
  pub limit_open : Bool
  pub limit_closed : Bool
  pub safety_beam_clear : Bool
  pub uptime_sec : ℕ
  pub free_heap_bytes : ℕ
  pub min_free_heap : ℕ
  pub firmware_version : List ℕ
  pub seq : ℕ

pub record CommandAck : Type 0 where
  pub command_id : List ℕ
  pub received_ts : Option Timestamp
  pub completed_ts : Option Timestamp
  pub completed : Bool
  pub success : Bool
  pub error_text : List ℕ
  pub state_after : GateState

-- `rest` is the fields that the client hands to the dispatcher unread.
pub record GateCommand (R : Type 0) : Type 0 where
  pub command_id : List ℕ
  pub rest : R

-- The payload of a `ControlEnvelope`.
pub data ControlEnvelope (R : Type 0) : Type 0 where
  telemetry : Telemetry → ControlEnvelope R
  ack : CommandAck → ControlEnvelope R
  fault_event : ControlEnvelope R
  command : GateCommand R → ControlEnvelope R
  nothing : ControlEnvelope R

-- What nanopb and the files it generates give: the codec, of which `encode` is told the size of the
-- buffer, the sizes of the text fields, and the bytes of a literal.
pub record Wire (R : Type 0) : Type 0 where
  pub encode : ℕ → ControlEnvelope R → Option (List ℕ)
  pub decode : List ℕ → Option (ControlEnvelope R)
  pub gate_id_size : ℕ
  pub version_size : ℕ
  pub command_id_size : ℕ
  pub error_text_size : ℕ
  pub literal : String → List ℕ

pub record DispatchResult : Type 0 where
  pub accepted : Bool
  pub completed_now : Bool
  pub external_completion : Bool
  pub terminal_ok : State
  pub error : String

pub record ClientConfig : Type 0 where
  pub gate_id : List ℕ
  pub fw_version : List ℕ
  pub reconnect_min_ms : ℕ
  pub reconnect_max_ms : ℕ
  pub telemetry_period_ms : ℕ
  pub command_deadline_ms : ℕ

pub record ControlClient : Type 0 where
  pub cfg : ClientConfig
  pub out_queue : List (List ℕ)
  pub connected : Bool
  pub telemetry_seq : ℕ
  pub last_telemetry_ms : ℕ
  pub last_wire_state : GateState
  pub tracker : CommandTracker

abbrev pub out_queue_depth : ℕ
out_queue_depth = 8

abbrev pub max_out_frame : ℕ
max_out_frame = 512

module _ {R : Type 0} (wire : Wire R) where
  unfoldable pub send_envelope : ControlClient → ControlEnvelope R → ControlClient × Bool
  send_envelope c env = elim (wire.encode (max_out_frame - frame_header_size) env) [
    | none ↦ (c, false)
    | some bytes ↦
        if not c.connected
        then (c, false)
        else if leb out_queue_depth (length c.out_queue)
        then (c, false)
        else (
          record c { out_queue = c.out_queue ++ (make_frame_header (length bytes) ++ bytes) ∷ [] },
          true,
        )
  ]

  -- The filler is what main installs, if it does.
  unfoldable pub filled_telemetry :
      Option (Telemetry → Telemetry) → Reading → ControlClient → Telemetry
  filled_telemetry filler r c =
      let plain : Telemetry = record {
        gate_id = copy_str wire.gate_id_size c.cfg.gate_id;
        sent_ts = fill_wallclock r;
        gate_state = unknown;
        limit_open = false;
        limit_closed = false;
        safety_beam_clear = false;
        uptime_sec = r.timer_us / 1_000_000 % u32_mod;
        free_heap_bytes = r.free_heap;
        min_free_heap = r.minimum_free_heap;
        firmware_version = copy_str wire.version_size c.cfg.fw_version;
        seq = c.telemetry_seq;
      } in
      elim filler [ none ↦ plain | some fill ↦ fill plain ]

  unfoldable pub send_telemetry :
      Option (Telemetry → Telemetry) → Reading → ControlClient → ControlClient
  send_telemetry filler r c =
      let t = filled_telemetry filler r c in
      (send_envelope
        (record c {
          telemetry_seq = (c.telemetry_seq + 1) % 18_446_744_073_709_551_616;
          last_wire_state = t.gate_state;
        })
        (telemetry t)).0

  unfoldable pub received_ack : Reading → ControlClient → List ℕ → CommandAck
  received_ack r c command_id = record {
    command_id = copy_str wire.command_id_size command_id;
    received_ts = fill_wallclock r;
    completed_ts = none;
    completed = false;
    success = false;
    error_text = [];
    state_after = c.last_wire_state;
  }

  unfoldable pub send_ack_received : Reading → ControlClient → GateCommand R → ControlClient
  send_ack_received r c cmd = (send_envelope c (ack (received_ack r c cmd.command_id))).0

  unfoldable pub completed_ack : Reading → ControlClient → List ℕ → Bool → List ℕ → CommandAck
  completed_ack r c command_id success error = record {
    command_id = copy_str wire.command_id_size command_id;
    received_ts = none;
    completed_ts = fill_wallclock r;
    completed = true;
    success = success;
    error_text = if not success then copy_str wire.error_text_size error else [];
    state_after = c.last_wire_state;
  }

  unfoldable pub send_ack_completed :
      Reading → ControlClient → List ℕ → Bool → String → ControlClient
  send_ack_completed r c command_id success error =
      (send_envelope c (ack (completed_ack r c command_id success (wire.literal error)))).0

  -- What is done with a verdict of the tracker.
  abbrev pub acknowledge : Reading → ControlClient → Verdict → ControlClient
  acknowledge r c v = if v.fire then send_ack_completed r c v.command_id v.success v.error else c

  -- The dispatcher is what main installs, if it does; what it does to the gate is not the client's.
  unfoldable pub handle_command :
      Option (GateCommand R → DispatchResult)
      → Reading
      → ControlClient
      → GateCommand R
      → ControlClient
  handle_command dispatcher r c cmd =
      let c' = send_ack_received r c cmd in
      elim dispatcher [
        | none ↦ send_ack_completed r c' cmd.command_id false "no command dispatcher wired"
        | some dispatch ↦
            let d = dispatch cmd in
            let deadline = (now_ms r + c'.cfg.command_deadline_ms) % u32_mod in
            let (tracker', superseded) = arm c'.tracker cmd.command_id d.terminal_ok deadline in
            if not d.accepted
            then send_ack_completed r c' cmd.command_id false d.error
            else if d.completed_now
            then send_ack_completed r c' cmd.command_id true ""
            else if d.external_completion
            then c'
            else acknowledge r (record c' { tracker = tracker' }) superseded
      ]

  unfoldable pub complete_command : Reading → ControlClient → List ℕ → Bool → String → ControlClient
  complete_command r c command_id success error = send_ack_completed r c command_id success error

  unfoldable pub notify_gate_event : Reading → ControlClient → State → Reason → Bool → ControlClient
  notify_gate_event r c s reason transitioned =
      let (tracker', v) = on_gate_event c.tracker s reason transitioned in
      acknowledge r (record c { last_wire_state = to_wire_state s; tracker = tracker' }) v

  -- The message is for the client only if it is a command.
  unfoldable pub handle_message :
      Option (GateCommand R → DispatchResult) → Reading → ControlClient → List ℕ → ControlClient
  handle_message dispatcher r c bytes = elim (wire.decode bytes) [
    | none ↦ c
    | some (command cmd) ↦ handle_command dispatcher r c cmd
    | some _ ↦ c
  ]

  -- The parts of a turn of the pump that come before the socket: the telemetry that is due and the
  -- deadline of the command in flight.
  unfoldable pub pump :
      Option (Telemetry → Telemetry) → Reading → Bool → ControlClient → ControlClient
  pump filler r headers_seen c =
      let now = now_ms r in
      let c' =
        if headers_seen && leb c.cfg.telemetry_period_ms (sub32 now c.last_telemetry_ms)
        then send_telemetry filler r (record c { last_telemetry_ms = now })
        else c in
      let (tracker', expired) = on_tick c'.tracker now in
      acknowledge r (record c' { tracker = tracker' }) expired

  -- The stream exists: the first telemetry goes out behind the headers.
  unfoldable pub open_stream :
      Option (Telemetry → Telemetry) → Reading → ControlClient → ControlClient
  open_stream filler r c =
      send_telemetry filler r (record c { connected = true; last_telemetry_ms = now_ms r })

-- A session is over: frames that are still queued must not greet the next one.
unfoldable pub end_session : ControlClient → ControlClient
end_session c = record c { connected = false; out_queue = [] }

-- After a session: how long the task sleeps, and the backoff it goes on with.
unfoldable pub next_backoff : ClientConfig → Bool → ℕ → ℕ × ℕ
next_backoff cfg reached_stream backoff_ms =
    let b = if reached_stream then cfg.reconnect_min_ms else backoff_ms in
    let twice = b * 2 % u32_mod in
    (b, if ltb cfg.reconnect_max_ms twice then cfg.reconnect_max_ms else twice)
