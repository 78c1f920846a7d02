-- ===== src/Rpc/Framing.antt =====
-- grpc_framing.cpp: the 5-byte prefix of gRPC messages and their incremental reassembly.
use alpr_li_dar_gate_automat.Base.{
  Bool, List, [], drop, false, if◌then◌else◌, length, ltb, not, suc, take, true, zero, ℕ, ◌%◌, ◌*◌,
  ◌++◌, ◌+◌, ◌-◌, ◌/◌, ◌==◌, ◌∷◌,
}
pub mod Bytes
pub mod Messages

abbrev pub frame_header_size : ℕ
frame_header_size = 5

-- `static_cast<uint8_t>((n >> k) & 0xFF)`, with the shift as a division.
abbrev pub byte_at : ℕ → ℕ → ℕ
byte_at n power = n / power % 256

unfoldable pub make_frame_header : ℕ → List ℕ
make_frame_header n = 0 ∷ byte_at n 16_777_216 ∷ byte_at n 65_536 ∷ byte_at n 256 ∷ byte_at n 1 ∷ []

pub data Status : Type 0 where
  need_more message_ready error_compressed error_oversize : Status

-- `header` holds the `header_filled_` bytes read of a prefix, `msg` the `msg_filled_` bytes of
-- the buffer that are filled.
pub record FrameAssembler : Type 0 where
  pub cap : ℕ
  pub header : List ℕ
  pub msg_len : ℕ
  pub msg : List ℕ
  pub in_payload : Bool
  pub poisoned : Bool

unfoldable pub new : ℕ → FrameAssembler
new cap = record {
  cap = cap;
  header = [];
  msg_len = 0;
  msg = [];
  in_payload = false;
  poisoned = false;
}

unfoldable pub reset : FrameAssembler → FrameAssembler
reset a = record a { header = []; msg_len = 0; msg = []; in_payload = false; poisoned = false }

-- The big-endian length behind the flag.
abbrev pub declared_length : List ℕ → ℕ
declared_length (_ ∷ b₁ ∷ b₂ ∷ b₃ ∷ b₄ ∷ []) = b₁ * 16_777_216 + b₂ * 65_536 + b₃ * 256 + b₄
declared_length _ = 0

abbrev pub first : List ℕ → ℕ
first [] = 0
first (b ∷ _) = b

-- One pass of the loop: `push` returns with a status, or goes on.
pub data Pass : Type 0 where
  stops : FrameAssembler → Status → Pass
  goes_on : FrameAssembler → Pass

-- The prefix is complete.
unfoldable pub on_prefix : FrameAssembler → List ℕ → Pass
on_prefix a h =
    let n = declared_length h in
    if not (first h == 0)
    then stops (record a { header = []; poisoned = true }) error_compressed
    else if ltb a.cap n
    then stops (record a { header = []; msg_len = n; poisoned = true }) error_oversize
    else if n == 0
    then stops (record a { header = []; msg_len = n; msg = []; in_payload = false }) message_ready
    else goes_on (record a { header = []; msg_len = n; msg = []; in_payload = true })

unfoldable pub on_header_byte : FrameAssembler → ℕ → Pass
unfolding on_prefix
on_header_byte a b =
    let h = a.header ++ b ∷ [] in
    if ltb (length h) frame_header_size then goes_on (record a { header = h }) else on_prefix a h

-- `min(avail, want)`, the bytes that a pass over the payload copies.
abbrev pub copied : FrameAssembler → List ℕ → ℕ
copied a bytes =
    let want = a.msg_len - length a.msg in
    let avail = length bytes in if ltb avail want then avail else want

unfoldable pub on_payload : FrameAssembler → List ℕ → Pass
on_payload a bytes =
    let filled = a.msg ++ take (copied a bytes) bytes in
    if length filled == a.msg_len
    then stops (record a { msg = filled; in_payload = false }) message_ready
    else goes_on (record a { msg = filled })

-- What `push` leaves: the assembler, its status and the bytes it did not consume.
pub record Pushed : Type 0 where
  pub assembler : FrameAssembler
  pub status : Status
  pub rest : List ℕ

unfoldable pub after_pass : (FrameAssembler → List ℕ → Pushed) → List ℕ → Pass → Pushed
after_pass again rest (stops a s) = record { assembler = a; status = s; rest = rest }
after_pass again rest (goes_on a) = again a rest

-- The loop, on fuel: each pass consumes a byte at least, so one more than the bytes is enough.
unfoldable pub push_loop : ℕ → FrameAssembler → List ℕ → Pushed
unfolding after_pass
push_loop zero a bytes = record { assembler = a; status = need_more; rest = bytes }
push_loop (suc fuel) a [] = record { assembler = a; status = need_more; rest = [] }
push_loop (suc fuel) a (b ∷ bytes) = elim a.in_payload [
  | false ↦ after_pass (push_loop fuel) bytes (on_header_byte a b)
  | true ↦
      after_pass (push_loop fuel) (drop (copied a (b ∷ bytes)) (b ∷ bytes))
        (on_payload a (b ∷ bytes))
]

unfoldable pub push : FrameAssembler → List ℕ → Pushed
push a bytes =
    if a.poisoned
    then record { assembler = a; status = error_oversize; rest = bytes }
    else push_loop (suc (length bytes)) a bytes
