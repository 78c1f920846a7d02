-- ===== src/Rpc/Client/Queue.antt =====
-- The outbound queue of the client, whatever happens to it.
use alpr_li_dar_gate_automat.Rpc.Framing.{make_frame_header}
use alpr_li_dar_gate_automat.Machine.Types.{Reason, State, none}
use alpr_li_dar_gate_automat.Rpc.Client.{
  ControlClient, ControlEnvelope, DispatchResult, GateCommand, Reading, Telemetry, Wire, ack,
  acknowledge, command, complete_command, completed_ack, end_session, fault_event, filled_telemetry,
  handle_command, handle_message, nothing, notify_gate_event, now_ms, open_stream, out_queue_depth,
  pump, received_ack, send_ack_completed, send_ack_received, send_envelope, send_telemetry,
  telemetry, to_wire_state,
}
use Prim.Native.String.{String}
use alpr_li_dar_gate_automat.Rpc.Tracker.{arm, on_gate_event, on_tick, Verdict}
use alpr_li_dar_gate_automat.Base.{
  ◌*◌, ◌/◌, All-snoc, sub32, u32_mod, ◌%◌, ◌&&◌, ◌+◌, ap, arith, false, holds_if, if◌then◌else◌,
  leb, length-append, none, not, refl, subst, sym, true, ◌++◌, ◌<◌, All, Bool, List, Option, [],
  length, some, ℕ, ◌∷◌, ◌≡◌, ◌≤◌,
}

-- The calls that change the client, the socket's share left out.
pub data ClientCall (R : Type 0) : Type 0 where
  sends : ControlEnvelope R → ClientCall R
  receives : Reading → List ℕ → ClientCall R
  completes : Reading → List ℕ → Bool → String → ClientCall R
  notifies : Reading → State → Reason → Bool → ClientCall R
  pumps : Reading → Bool → ClientCall R
  opens_stream : Reading → ClientCall R
  ends_session : ClientCall R

-- A frame is one whole gRPC message that fits the buffer: the flag 0, then its length in four bytes,
-- the highest first, of which the first two are 0 here, then the message.
abbrev pub IsFrame : List ℕ → Type 0
IsFrame frame =
    (high low : ℕ) × (message : List ℕ) × (frame ≡ 0 ∷ 0 ∷ 0 ∷ high ∷ low ∷ message)
    × (256 * high + low ≡ length message)
    × (high < 256)
    × (low < 256)
    × (length message ≤ 507)

pub record IsBounded (c : ControlClient) : Type 0 where
  pub room : length c.out_queue ≤ 8
  pub frames : All IsFrame c.out_queue

module _ {R : Type 0} (wire : Wire R) (dispatcher : Option (GateCommand R → DispatchResult))
    (filler : Option (Telemetry → Telemetry)) where
  unfoldable pub client_call : ControlClient → ClientCall R → ControlClient
  client_call c (sends env) = (send_envelope wire c env).0
  client_call c (receives r bytes) = handle_message wire dispatcher r c bytes
  client_call c (completes r id success error) = complete_command wire r c id success error
  client_call c (notifies r s reason moved) = notify_gate_event wire r c s reason moved
  client_call c (pumps r headers_seen) = pump wire filler r headers_seen c
  client_call c (opens_stream r) = open_stream wire filler r c
  client_call c ends_session = end_session c

  unfoldable pub client_run : ControlClient → List (ClientCall R) → ControlClient
  client_run c [] = c
  client_run c (k ∷ calls) = client_run (client_call c k) calls

  -- An encoder never writes beyond the buffer that it is given.
  abbrev pub FitsBuffer : Type 0
  FitsBuffer =
      (size : ℕ) (env : ControlEnvelope R) (bytes : List ℕ)
      → wire.encode size env ≡ some bytes
      → length bytes ≤ size

  header-IsFrame :
      (bytes : List ℕ) → length bytes ≤ 507 → IsFrame (make_frame_header (length bytes) ++ bytes)
  unfolding make_frame_header
  header-IsFrame bytes l =
      let n = length bytes in
      let prefix : make_frame_header n ++ bytes ≡ 0 ∷ 0 ∷ 0 ∷ n / 256 ∷ n % 256 ∷ bytes =
        ground (arith, l) in
      (n / 256, n % 256, bytes, prefix, omega arith, omega arith, omega arith, l)

  queued-IsBounded :
      (c : ControlClient) (bytes : List ℕ)
      → length bytes ≤ 507
      → IsBounded c
      → length c.out_queue < out_queue_depth
      → IsBounded
          (record c { out_queue = c.out_queue ++ (make_frame_header (length bytes) ++ bytes) ∷ [] })
  queued-IsBounded c bytes l b h =
      let frame = make_frame_header (length bytes) ++ bytes in
      record {
        room = omega (arith, h, length-append c.out_queue (frame ∷ []));
        frames = All-snoc IsFrame c.out_queue frame b.frames (header-IsFrame bytes l);
      }

  send_envelope-IsBounded :
      FitsBuffer
      → (c : ControlClient) (env : ControlEnvelope R) → IsBounded c
      → IsBounded (send_envelope wire c env).0
  unfolding send_envelope
  send_envelope-IsBounded fits c env b = sent_off (wire.encode 507 env) refl
    where
      sent_off :
          (encoded : Option (List ℕ))
          → wire.encode 507 env ≡ encoded
          → IsBounded (
              (elim encoded as (λ _. ControlClient × Bool) [
                | none ↦ (c, false)
                | some bytes ↦
                    if not c.connected
                    then (c, false)
                    else if leb out_queue_depth (length c.out_queue)
                    then (c, false)
                    else (
                      record c {
                        out_queue = c.out_queue ++ (make_frame_header (length bytes) ++ bytes) ∷ [];
                      },
                      true,
                    )
              ]).0)
      sent_off none e = b
      sent_off (some bytes) e =
          holds_if (λ (x : ControlClient × Bool). IsBounded x.0) (not c.connected) (λ _. b)
            (λ _.
              holds_if (λ (x : ControlClient × Bool). IsBounded x.0)
                (leb out_queue_depth (length c.out_queue)) (λ _. b)
                (λ room. queued-IsBounded c bytes (fits 507 env bytes e) b (ground (arith, room))))

  completed-IsBounded :
      FitsBuffer
      → (r : Reading) (c : ControlClient) (id : List ℕ) (success : Bool) (error : String)
      → IsBounded c
      → IsBounded (send_ack_completed wire r c id success error)
  unfolding send_ack_completed
  completed-IsBounded fits r c id success error b =
      send_envelope-IsBounded fits c (ack (completed_ack wire r c id success (wire.literal error)))
        b

  -- What the verdict does, on a client that differs from a bounded one outside its queue only.
  acknowledge-IsBounded :
      FitsBuffer
      → (r : Reading) (c c' : ControlClient) (v : Verdict) → c'.out_queue ≡ c.out_queue
      → IsBounded c
      → IsBounded (acknowledge wire r c' v)
  acknowledge-IsBounded fits r c c' v e b =
      let b' : IsBounded c' = record {
        room = omega (arith, b.room, ap length e);
        frames = subst (All IsFrame) (sym e) b.frames;
      } in
      holds_if IsBounded v.fire
        (λ _. completed-IsBounded fits r c' v.command_id v.success v.error b') (λ _. b')

  handle_command-IsBounded :
      FitsBuffer
      → (dispatch : Option (GateCommand R → DispatchResult)) (r : Reading) (c : ControlClient)
        (cmd : GateCommand R)
      → IsBounded c
      → IsBounded (handle_command wire dispatch r c cmd)
  unfolding handle_command send_ack_received
  handle_command-IsBounded fits none r c cmd b =
      let received = ack (received_ack wire r c cmd.command_id) in
      completed-IsBounded fits r (send_envelope wire c received).0 cmd.command_id false
        "no command dispatcher wired" (send_envelope-IsBounded fits c received b)
  handle_command-IsBounded fits (some dispatch) r c cmd b =
      let received = ack (received_ack wire r c cmd.command_id) in
      let c' = (send_envelope wire c received).0 in
      let b' = send_envelope-IsBounded fits c received b in
      let d = dispatch cmd in
      let armed =
        arm c'.tracker cmd.command_id d.terminal_ok
          ((now_ms r + c'.cfg.command_deadline_ms) % u32_mod) in
      holds_if IsBounded (not d.accepted)
        (λ _. completed-IsBounded fits r c' cmd.command_id false d.error b')
        (λ _.
          holds_if IsBounded d.completed_now
            (λ _. completed-IsBounded fits r c' cmd.command_id true "" b')
            (λ _.
              holds_if IsBounded d.external_completion (λ _. b')
                (λ _.
                  acknowledge-IsBounded fits r c' (record c' { tracker = armed.0 }) armed.1 refl
                    b')))

  handle_message-IsBounded :
      FitsBuffer
      → (r : Reading) (c : ControlClient) (bytes : List ℕ) → IsBounded c
      → IsBounded (handle_message wire dispatcher r c bytes)
  unfolding handle_message
  handle_message-IsBounded fits r c bytes b = read_as (wire.decode bytes)
    where
      read_as :
          (m : Option (ControlEnvelope R))
          → IsBounded (elim m as (λ _. ControlClient) [
            | none ↦ c
            | some (command cmd) ↦ handle_command wire dispatcher r c cmd
            | some _ ↦ c
          ])
      read_as none = b
      read_as (some (command cmd)) = handle_command-IsBounded fits dispatcher r c cmd b
      read_as (some (telemetry t)) = b
      read_as (some (ack a)) = b
      read_as (some fault_event) = b
      read_as (some nothing) = b

  send_telemetry-IsBounded :
      FitsBuffer
      → (r : Reading) (c : ControlClient) → IsBounded c
      → IsBounded (send_telemetry wire filler r c)
  unfolding send_telemetry
  send_telemetry-IsBounded fits r c b =
      let t = filled_telemetry wire filler r c in
      send_envelope-IsBounded fits
        (record c {
          telemetry_seq = (c.telemetry_seq + 1) % 18_446_744_073_709_551_616;
          last_wire_state = t.gate_state;
        })
        (telemetry t) (record { room = b.room; frames = b.frames })

  pump-IsBounded :
      FitsBuffer
      → (r : Reading) (headers_seen : Bool) (c : ControlClient) → IsBounded c
      → IsBounded (pump wire filler r headers_seen c)
  unfolding pump
  pump-IsBounded fits r headers_seen c b =
      let timed = record c { last_telemetry_ms = now_ms r } in
      let due =
        headers_seen && leb c.cfg.telemetry_period_ms (sub32 (now_ms r) c.last_telemetry_ms) in
      let c' = if due then send_telemetry wire filler r timed else c in
      let b' : IsBounded c' =
        holds_if IsBounded due
          (λ _. send_telemetry-IsBounded fits r timed (record { room = b.room; frames = b.frames }))
          (λ _. b) in
      let ticked = on_tick c'.tracker (now_ms r) in
      acknowledge-IsBounded fits r c' (record c' { tracker = ticked.0 }) ticked.1 refl b'

  client_call-IsBounded :
      FitsBuffer
      → (c : ControlClient) (k : ClientCall R) → IsBounded c
      → IsBounded (client_call c k)
  unfolding client_call complete_command notify_gate_event open_stream end_session
  client_call-IsBounded fits c (sends env) b = send_envelope-IsBounded fits c env b
  client_call-IsBounded fits c (receives r bytes) b = handle_message-IsBounded fits r c bytes b
  client_call-IsBounded fits c (completes r id success error) b =
      completed-IsBounded fits r c id success error b
  client_call-IsBounded fits c (notifies r s reason moved) b =
      let heard = on_gate_event c.tracker s reason moved in
      acknowledge-IsBounded fits r c
        (record c { last_wire_state = to_wire_state s; tracker = heard.0 }) heard.1 refl b
  client_call-IsBounded fits c (pumps r headers_seen) b = pump-IsBounded fits r headers_seen c b
  client_call-IsBounded fits c (opens_stream r) b =
      send_telemetry-IsBounded fits r (record c { connected = true; last_telemetry_ms = now_ms r })
        (record { room = b.room; frames = b.frames })
  client_call-IsBounded fits c ends_session b = record { room = omega arith; frames = tt }

  -- With an encoder that stays in its buffer: whatever is called on a client whose queue is bounded,
  -- the queue has at most 8 frames, and each is one whole message of at most 507 bytes behind the
  -- gRPC prefix that has its length.
  pub client_run-IsBounded :
      FitsBuffer
      → (c : ControlClient) (calls : List (ClientCall R)) → IsBounded c
      → IsBounded (client_run c calls)
  unfolding client_run
  client_run-IsBounded fits c [] b = b
  client_run-IsBounded fits c (k ∷ calls) b =
      client_run-IsBounded fits (client_call c k) calls (client_call-IsBounded fits c k b)
