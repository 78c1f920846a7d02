-- ===== src/Rpc/Session/Inbound.antt =====
-- Messages that arrive in chunks.
use alpr_li_dar_gate_automat.Rpc.Session.Drive.{
  drive, drive-append, drive-IsOpen, drive-feed, chunk_loop-drive, after_push, go_on,
}
use alpr_li_dar_gate_automat.Rpc.Framing.Messages.{
  push-IsResult, push-make_frame_header, IsFresh, IsOpen,
}
use alpr_li_dar_gate_automat.Rpc.Framing.Bytes.{push-feed}
use alpr_li_dar_gate_automat.Rpc.Session.{on_data_chunk, ControlSession, Delivered}
use alpr_li_dar_gate_automat.Rpc.Framing.{push, make_frame_header, FrameAssembler}
use alpr_li_dar_gate_automat.Base.{
  subst, All, Bool, not, ◌<◌, ◌||◌, ap, sym, ◌∙◌, List, [], arith, false, if◌then◌else◌, length,
  refl, true, ℕ, ◌++◌, ◌∷◌, ◌≡◌, ◌≤◌,
}

abbrev pub joined_chunks : List (List ℕ) → List ℕ
joined_chunks [] = []
joined_chunks (bytes ∷ chunks) = bytes ++ joined_chunks chunks

abbrev pub framed : List (List ℕ) → List ℕ
framed [] = []
framed (p ∷ ps) = make_frame_header (length p) ++ (p ++ framed ps)

module _ {H : Type 0} (handle_message : H → List ℕ → H) where
  -- What a stream of chunks does.
  unfoldable pub on_chunks : ControlSession → H → List (List ℕ) → ControlSession × H × Bool
  on_chunks s h [] = (s, h, true)
  on_chunks s h (bytes ∷ chunks) =
      let r = on_data_chunk handle_message s h s.stream_id bytes in
      let again = on_chunks r.0 r.1 chunks in if r.2 then again else r

  abbrev pub handle_all : H → List (List ℕ) → H
  handle_all h [] = h
  handle_all h (p ∷ ps) = handle_all (handle_message h p) ps

  abbrev pub left_by : ControlSession → Delivered H → ControlSession × H × Bool
  left_by s d =
      (record s { assembler = d.assembler; closed = s.closed || d.failed }, d.owner, not d.failed)

  on_data_chunk-drive :
      (s : ControlSession) (h : H) (bytes : List ℕ)
      → IsOpen s.assembler
      → on_data_chunk handle_message s h s.stream_id bytes
        ≡ left_by s (drive handle_message s.assembler h bytes)
  unfolding on_data_chunk
  on_data_chunk-drive s h bytes o =
      ground
        (arith, chunk_loop-drive handle_message (length bytes) s.assembler h bytes o (omega arith))

  chunks_pass :
      (s : ControlSession) (d : Delivered H) (chunks : List (List ℕ))
      → (d.failed ≡ false
          → on_chunks (left_by s d).0 d.owner chunks
            ≡ left_by
                (left_by s d).0
                (drive handle_message d.assembler d.owner (joined_chunks chunks)))
      → (if not d.failed then on_chunks (left_by s d).0 d.owner chunks else left_by s d)
        ≡ left_by s (go_on handle_message d (joined_chunks chunks))
  chunks_pass s d chunks again = ground (arith, again)

  on_chunks-drive :
      (s : ControlSession) (h : H) (chunks : List (List ℕ))
      → IsOpen s.assembler
      → on_chunks s h chunks ≡ left_by s (drive handle_message s.assembler h (joined_chunks chunks))
  unfolding on_chunks
  on_chunks-drive s h [] o = unfold drive in ground arith
  on_chunks-drive s h (bytes ∷ chunks) o =
      let d = drive handle_message s.assembler h bytes in
      ap (λ (r : ControlSession × H × Bool). if r.2 then on_chunks r.0 r.1 chunks else r)
        (on_data_chunk-drive s h bytes o)
      ∙ chunks_pass s d chunks (λ e.
        on_chunks-drive (left_by s d).0 d.owner chunks
          (drive-IsOpen handle_message s.assembler h bytes o e))
      ∙ ap (left_by s)
          (sym (drive-append handle_message s.assembler h bytes (joined_chunks chunks)))

  drive-framed :
      (a : FrameAssembler) (h : H) (ps : List (List ℕ))
      → IsFresh a
      → All (λ p. length p < 4_294_967_296 × length p ≤ a.cap) ps
      → let d = drive handle_message a h (framed ps) in
        (d.owner ≡ handle_all h ps) × (d.failed ≡ false) × IsFresh d.assembler
  drive-framed a h [] f all = unfold drive in (refl, refl, f)
  drive-framed a h (p ∷ ps) f all =
      let bytes = make_frame_header (length p) ++ (p ++ framed ps) in
      let r = push a bytes in
      let (ready, whole, _, unread, fresh) =
        push-make_frame_header a p (framed ps) f all.0.0 all.0.1 in
      let cap = (push-IsResult a bytes f.is_open).same_cap in
      let turned : drive handle_message a h bytes
          ≡ drive handle_message r.assembler (handle_message h p) (framed ps) =
        drive-feed handle_message a h bytes
        ∙ ap (after_push handle_message h)
            (sym (push-feed a bytes f.is_open.clean f.is_open.partial))
        ∙ ground (arith, ready, whole, unread) in
      subst
        (λ (d : Delivered H).
          (d.owner ≡ handle_all (handle_message h p) ps) × (d.failed ≡ false) × IsFresh d.assembler)
        (sym turned)
        (drive-framed r.assembler (handle_message h p) ps fresh
          (subst (λ c. All (λ p'. length p' < 4_294_967_296 × length p' ≤ c) ps) (sym cap) all.1))

  -- However a stream of framed messages, each of which fits the buffer, is cut into chunks, a
  -- session between two messages hands each message to its owner once, whole and in order, stays
  -- open, and is between two messages again.
  pub on_chunks_messages :
      (s : ControlSession) (h : H) (chunks ps : List (List ℕ))
      → IsFresh s.assembler
      → All (λ p. length p < 4_294_967_296 × length p ≤ s.assembler.cap) ps
      → joined_chunks chunks ≡ framed ps
      → let r = on_chunks s h chunks in
        (r.1 ≡ handle_all h ps) × (r.2 ≡ true) × (r.0.closed ≡ s.closed) × IsFresh r.0.assembler
  on_chunks_messages s h chunks ps f all e =
      let (owner, ok, fresh) = drive-framed s.assembler h ps f all in
      let run : on_chunks s h chunks ≡ left_by s (drive handle_message s.assembler h (framed ps)) =
        on_chunks-drive s h chunks f.is_open
        ∙ ap (λ bytes. left_by s (drive handle_message s.assembler h bytes)) e in
      rw run (owner, ground (arith, ok), ground (arith, ok), fresh)
