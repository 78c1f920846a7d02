-- ===== src/Rpc/Session.antt =====
-- control_client.cpp: the nghttp2 callbacks that feed a stream with frames and read messages from it.
use alpr_li_dar_gate_automat.Machine.Types.{none}
use alpr_li_dar_gate_automat.Rpc.Framing.{push, FrameAssembler, message_ready, need_more}
use alpr_li_dar_gate_automat.Base.{
  Bool, List, Option, [], drop, false, if◌then◌else◌, length, ltb, none, not, some, suc, take, true,
  zero, ℕ, ◌&&◌, ◌+◌, ◌-◌, ◌==◌, ◌||◌, ◌∷◌,
}
-- nghttp2 decides when a callback runs, with which bytes and which room.
use alpr_li_dar_gate_automat.Rpc.Framing
pub mod Drive
pub mod Inbound
pub mod Outbound
pub mod Link

-- `max` is NGHTTP2_ERR_CALLBACK_FAILURE for a callback that fails; `current` is the frame in flight.
pub record ControlSession : Type 0 where
  pub stream_id : ℕ
  pub assembler : FrameAssembler
  pub current : List ℕ
  pub current_off : ℕ
  pub has_current : Bool
  pub closed : Bool

abbrev pub max_in_message : ℕ
max_in_message = 1_024

unfoldable pub opened : ℕ → ControlSession
unfolding Framing.new
opened stream_id = record {
  stream_id = stream_id;
  assembler = Framing.new max_in_message;
  current = [];
  current_off = 0;
  has_current = false;
  closed = false;
}

-- What the loop of `cb_on_data_chunk` leaves: the assembler, what the messages did to the owner, and
-- whether a frame broke the protocol.
pub record Delivered (H : Type 0) : Type 0 where
  pub assembler : FrameAssembler
  pub owner : H
  pub failed : Bool

module _ {H : Type 0} (handle_message : H → List ℕ → H) where
  -- The loop, on fuel: each push consumes a byte at least, so the number of bytes is enough.
  unfoldable pub chunk_loop : ℕ → FrameAssembler → H → List ℕ → Delivered H
  chunk_loop zero a h bytes = record { assembler = a; owner = h; failed = false }
  chunk_loop (suc fuel) a h [] = record { assembler = a; owner = h; failed = false }
  chunk_loop (suc fuel) a h (b ∷ bytes) =
      let p = push a (b ∷ bytes) in
      elim p.status [
        | need_more ↦ chunk_loop fuel p.assembler h p.rest
        | message_ready ↦ chunk_loop fuel p.assembler (handle_message h p.assembler.msg) p.rest
        | _ ↦ record { assembler = p.assembler; owner = h; failed = true }
      ]

  -- The last component says whether nghttp2 may go on.
  unfoldable pub on_data_chunk : ControlSession → H → ℕ → List ℕ → ControlSession × H × Bool
  on_data_chunk s h stream_id bytes =
      let d = chunk_loop (length bytes) s.assembler h bytes in
      if not (stream_id == s.stream_id) then (s, h, true) else (
        record s { assembler = d.assembler; closed = s.closed || d.failed },
        d.owner,
        not d.failed,
      )

-- `on_frame_recv` of a frame with END_STREAM or a GOAWAY.
unfoldable pub on_frame_recv : ControlSession → ℕ → Bool → Bool → ControlSession
on_frame_recv s stream_id end_stream goaway = record s {
  closed = s.closed || (stream_id == s.stream_id && end_stream) || goaway;
}

unfoldable pub on_stream_close : ControlSession → ℕ → ControlSession
on_stream_close s stream_id = record s { closed = s.closed || stream_id == s.stream_id }

-- The bytes that go out: what is left of the frame, if there is room for it.
abbrev pub read_size : ControlSession → ℕ → ℕ
read_size s room =
    let remain = length s.current - s.current_off in if ltb room remain then room else remain

unfoldable pub sent : ControlSession → ℕ → ControlSession
sent s n =
    let off = s.current_off + n in
    if off == length s.current
    then record s { has_current = false; current_off = 0 }
    else record s { current_off = off }

-- `none` is NGHTTP2_ERR_DEFERRED.
unfoldable pub data_read : ControlSession → ℕ → ControlSession × Option (List ℕ)
data_read s room =
    let n = read_size s room in
    if not s.has_current
    then (s, none)
    else (sent s n, some (take n (drop s.current_off s.current)))

-- The pump takes the next frame from the queue when none is in flight.
unfoldable pub refill : ControlSession → List (List ℕ) → ControlSession × List (List ℕ)
refill s queue = if s.has_current then (s, queue) else elim queue [
  | [] ↦ (s, [])
  | frame ∷ rest ↦ (record s { current = frame; current_off = 0; has_current = true }, rest)
]
