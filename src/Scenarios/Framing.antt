-- ===== src/Scenarios/Framing.antt =====
-- Frame assembly on a message of two bytes and on one that is too long.
use alpr_li_dar_gate_automat.Base.{List, [], arith, false, refl, ◌++◌, ◌∷◌, ◌≡◌, ℕ, length}
use alpr_li_dar_gate_automat.Rpc.Framing.{FrameAssembler, push, make_frame_header, message_ready}
use alpr_li_dar_gate_automat.Rpc.Framing.Messages.{
  resume, IsOpen, IsFresh, push-append, push-make_frame_header,
}

abbrev empty : FrameAssembler
empty = record {
  cap = 16;
  header = [];
  msg_len = 0;
  msg = [];
  in_payload = false;
  poisoned = false;
}

empty-IsOpen : IsOpen empty
empty-IsOpen = ground arith

empty-IsFresh : IsFresh empty
empty-IsFresh = record { is_open = empty-IsOpen; no_prefix = refl; no_payload = refl }

abbrev payload : List ℕ
payload = b'h' ∷ b'i' ∷ []

abbrev wire : List ℕ
wire = 0 ∷ 0 ∷ 0 ∷ 0 ∷ 2 ∷ payload

push-append_example : push empty (wire ++ wire) ≡ resume (push empty wire) (λ a. push a wire) wire
push-append_example = push-append empty wire wire empty-IsOpen

push-make_frame_header_example :
    let r = push empty (make_frame_header (length payload) ++ (payload ++ wire)) in
    (r.status ≡ message_ready)
    × (r.assembler.msg ≡ payload)
    × (r.assembler.msg_len ≡ length payload)
    × (r.rest ≡ wire)
    × IsFresh r.assembler
push-make_frame_header_example =
    push-make_frame_header empty payload wire empty-IsFresh (omega arith) (omega arith)
