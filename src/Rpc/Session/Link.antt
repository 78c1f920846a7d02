-- ===== src/Rpc/Session/Link.antt =====
-- A stream between two ends: one writes frames, the other reads the chunks that arrive.
use mathlib.Core.List.{append-nil}
use alpr_li_dar_gate_automat.Rpc.Framing.Messages.{IsFresh}
use alpr_li_dar_gate_automat.Rpc.Session.Inbound.{
  on_chunks_messages, handle_all, on_chunks, joined_chunks, framed,
}
use alpr_li_dar_gate_automat.Rpc.Session.Outbound.{
  run_steps_balance, written_by, backlog, run_steps, posted_by, PostsBytes, IsValid, Step,
}
use alpr_li_dar_gate_automat.Rpc.Session.{ControlSession}
use alpr_li_dar_gate_automat.Base.{
  ap, arith, sym, ◌++◌, ◌∙◌, All, List, [], false, length, ℕ, ◌<◌, ◌≡◌, ◌≤◌,
}

-- Whatever the order in which a sender with nothing in flight posts, takes and reads its frames, and
-- however the bytes are cut on the way: once everything is written, a receiver between two messages,
-- whose buffer every payload fits, has handed on exactly the payloads, in order.
pub link_roundtrip :
    {H : Type 0} (handle_message : H → List ℕ → H) (sender receiver : ControlSession) (h : H)
    (steps : List Step) (ps chunks : List (List ℕ))
    → IsValid sender []
    → sender.has_current ≡ false
    → All PostsBytes steps
    → posted_by steps ≡ framed ps
    → let sent = run_steps sender [] steps in
      backlog sent.0 sent.1 ≡ []
      → joined_chunks chunks ≡ written_by sender [] steps
      → IsFresh receiver.assembler
      → All (λ p. length p < 4_294_967_296 × length p ≤ receiver.assembler.cap) ps
      → (on_chunks handle_message receiver h chunks).1 ≡ handle_all handle_message h ps
link_roundtrip handle_message sender receiver h steps ps chunks v idle b posted empty arrived f
      all =
    let (balance, _) = run_steps_balance sender [] steps v b in
    let start : backlog sender [] ≡ [] = ground (arith, idle) in
    let stream : written_by sender [] steps ≡ framed ps =
      sym (append-nil (written_by sender [] steps))
      ∙ ap (λ l. written_by sender [] steps ++ l) (sym empty)
      ∙ balance
      ∙ ap (λ l. l ++ posted_by steps) start
      ∙ posted in
    (on_chunks_messages handle_message receiver h chunks ps f all (arrived ∙ stream)).0
