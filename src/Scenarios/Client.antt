-- ===== src/Scenarios/Client.antt =====
-- The RPC client and its stream on concrete bytes and calls.
use alpr_li_dar_gate_automat.Rpc.Session.Outbound.{IsValid}
use alpr_li_dar_gate_automat.Rpc.Session.Link.{link_roundtrip}
use alpr_li_dar_gate_automat.Rpc.Client.Answers.{command_completes, framed_ack}
use alpr_li_dar_gate_automat.Rpc.Session.Inbound.{on_chunks}
use alpr_li_dar_gate_automat.Machine.Types.{Reason, State, none}
use alpr_li_dar_gate_automat.Rpc.Client.Queue.{
  client_run-IsBounded, pumps, ClientCall, client_run, FitsBuffer, IsBounded, notifies, receives,
}
use alpr_li_dar_gate_automat.Rpc.Client.{
  GateState, ClientConfig, DispatchResult, command, handle_command, unknown, ControlClient,
  GateCommand, Reading, Wire, notify_gate_event,
}
use alpr_li_dar_gate_automat.Rpc.Session.Outbound.{
  step, Step, written_by, posts, reads, refills, run_steps,
}
use alpr_li_dar_gate_automat.Rpc.Framing.{make_frame_header}
use alpr_li_dar_gate_automat.Base.{
  Bool, List, [], arith, false, if◌then◌else◌, leb, none, refl, some, true, ℕ, ◌++◌, ◌∷◌, ◌≡◌,
}
use alpr_li_dar_gate_automat.Rpc.Framing.Messages.{IsFresh}
use alpr_li_dar_gate_automat.Rpc.Session.{sent, data_read, refill, ControlSession}

-- A session between two messages.
abbrev idle_session : ControlSession
idle_session = record {
  stream_id = 1;
  assembler = record {
    cap = 1_024;
    header = [];
    msg_len = 0;
    msg = [];
    in_payload = false;
    poisoned = false;
  };
  current = [];
  current_off = 0;
  has_current = false;
  closed = false;
}

idle-IsFresh : IsFresh idle_session.assembler
idle-IsFresh = record {
  is_open = record { clean = refl; prefix_short = omega arith; partial = λ h. cc; fits = λ h. cc };
  no_prefix = refl;
  no_payload = refl;
}

-- Messages are collected.
abbrev collect : List (List ℕ) → List ℕ → List (List ℕ)
collect seen message = seen ++ message ∷ []

abbrev two_payloads : List (List ℕ)
two_payloads = (1 ∷ 2 ∷ 3 ∷ []) ∷ [] ∷ []

-- Cut within a prefix and within a payload.
abbrev cut_chunks : List (List ℕ)
cut_chunks = (0 ∷ 0 ∷ []) ∷ (0 ∷ 0 ∷ 3 ∷ 1 ∷ []) ∷ (2 ∷ 3 ∷ 0 ∷ 0 ∷ 0 ∷ 0 ∷ 0 ∷ []) ∷ []

abbrev one_frame : List Step
one_frame = posts (0 ∷ 0 ∷ 0 ∷ 0 ∷ 1 ∷ 9 ∷ []) ∷ refills ∷ reads 4 ∷ reads 100 ∷ []

idle-IsValid : IsValid idle_session []
idle-IsValid = record { in_flight = λ h. cc; waiting = tt }

link_roundtrip_example :
    (on_chunks collect idle_session [] ((0 ∷ 0 ∷ 0 ∷ []) ∷ (0 ∷ 1 ∷ 9 ∷ []) ∷ [])).1 ≡ (9 ∷ []) ∷ []
unfolding make_frame_header run_steps written_by step refill data_read sent
link_roundtrip_example =
    link_roundtrip collect idle_session idle_session [] one_frame ((9 ∷ []) ∷ [])
      ((0 ∷ 0 ∷ 0 ∷ []) ∷ (0 ∷ 1 ∷ 9 ∷ []) ∷ []) idle-IsValid refl
      (omega arith, (tt, (tt, (tt, tt)))) refl refl refl idle-IsFresh
      ((omega arith, omega arith), tt)

abbrev client_config : ClientConfig
client_config = record {
  gate_id = b'g' ∷ [];
  fw_version = b'1' ∷ [];
  reconnect_min_ms = 1_000;
  reconnect_max_ms = 30_000;
  telemetry_period_ms = 1_000;
  command_deadline_ms = 40_000;
}

abbrev accepts : GateCommand Bool → DispatchResult
accepts cmd = record {
  accepted = true;
  completed_now = false;
  external_completion = false;
  terminal_ok = State.opened;
  error = "";
}

-- An encoder that writes one byte, when there is room.
abbrev one_byte : Wire Bool
one_byte = record {
  encode = λ size env. if leb 1 size then some (1 ∷ []) else none;
  decode = λ bytes. some (command (record { command_id = bytes; rest = true }));
  gate_id_size = 32;
  version_size = 32;
  command_id_size = 40;
  error_text_size = 96;
  literal = λ text. [];
}

one_byte-FitsBuffer : FitsBuffer one_byte (some accepts) none
one_byte-FitsBuffer size env bytes e = ground (arith, e)

abbrev clock : Reading
clock = record {
  timer_us = 5_000_000;
  tv_sec = 0;
  tv_usec = 0;
  free_heap = 100_000;
  minimum_free_heap = 90_000;
}

abbrev online : ControlClient
online = record {
  cfg = client_config;
  out_queue = [];
  connected = true;
  telemetry_seq = 0;
  last_telemetry_ms = 0;
  last_wire_state = unknown;
  tracker = record { id = []; terminal_ok = State.closed; deadline_ms = 0; armed = false };
}

abbrev busy_calls : List (ClientCall Bool)
busy_calls =
    receives clock (b'a' ∷ [])
    ∷ pumps clock true
    ∷ notifies clock State.opened Reason.none true
    ∷ []

client_run-IsBounded_example : IsBounded (client_run one_byte (some accepts) none online busy_calls)
client_run-IsBounded_example =
    client_run-IsBounded one_byte (some accepts) none one_byte-FitsBuffer online busy_calls
      (record { room = omega arith; frames = tt })

command_completes_example :
    let c' =
      notify_gate_event one_byte clock
        (handle_command one_byte
          (some accepts)
          clock
          online
          (record { command_id = b'a' ∷ []; rest = true }))
        State.opened
        Reason.none
        true in
    (c'.out_queue ≡ framed_ack (1 ∷ []) ∷ framed_ack (1 ∷ []) ∷ [])
    × (c'.tracker.armed ≡ false)
    × (c'.last_wire_state ≡ GateState.opened)
command_completes_example =
    command_completes one_byte accepts clock clock online
      (record { command_id = b'a' ∷ []; rest = true }) Reason.none (1 ∷ []) (1 ∷ []) refl
      (omega arith) refl refl refl refl refl refl
