-- ===== src/Rpc/Session/Drive.antt =====
-- Reading a stream byte by byte, which the loop over a chunk does as well.
use alpr_li_dar_gate_automat.Rpc.Framing.Messages.{
  Leaves, on_byte-Leaves, feed-IsResult, feed_go, IsOpen, feed_stop, Pass-cases, on_byte-status,
}
use alpr_li_dar_gate_automat.Rpc.Framing.Bytes.{push-feed, feed, on_byte}
use alpr_li_dar_gate_automat.Rpc.Session.{Delivered, chunk_loop}
use alpr_li_dar_gate_automat.Rpc.Framing.{
  stops, Status, Pass, error_compressed, error_oversize, FrameAssembler, Pushed, goes_on,
  message_ready, need_more,
}
use alpr_li_dar_gate_automat.Base.{
  ap, sym, ◌∙◌, inl, inr, ◌≢◌, List, [], arith, false, if◌then◌else◌, length, refl, suc, true, zero,
  ℕ, ◌++◌, ◌∷◌, ◌≡◌, ◌≤◌,
}

module _ {H : Type 0} (handle_message : H → List ℕ → H) where
  -- Reading byte by byte.
  unfoldable pub drive : FrameAssembler → H → List ℕ → Delivered H
  drive a h [] = record { assembler = a; owner = h; failed = false }
  drive a h (b ∷ bytes) = elim (on_byte a b) [
    | goes_on a' ↦ drive a' h bytes
    | stops a' message_ready ↦ drive a' (handle_message h a'.msg) bytes
    | stops a' _ ↦ record { assembler = a'; owner = h; failed = true }
  ]

  abbrev pub after_push : H → Pushed → Delivered H
  after_push h p = elim p.status [
    | need_more ↦ record { assembler = p.assembler; owner = h; failed = false }
    | message_ready ↦ drive p.assembler (handle_message h p.assembler.msg) p.rest
    | _ ↦ record { assembler = p.assembler; owner = h; failed = true }
  ]

  drive_pass :
      (q : Pass) (h : H) (bytes : List ℕ)
      → ((a : FrameAssembler) (s : Status) → q ≡ stops a s → s ≢ need_more)
      → ((a : FrameAssembler) → drive a h bytes ≡ after_push h (feed a bytes))
      → (elim q as (λ _. Delivered H) [
        | goes_on a' ↦ drive a' h bytes
        | stops a' message_ready ↦ drive a' (handle_message h a'.msg) bytes
        | stops a' _ ↦ record { assembler = a'; owner = h; failed = true }
      ])
        ≡ after_push h (elim q as (λ _. Pushed) [
          | stops a' s ↦ record { assembler = a'; status = s; rest = bytes }
          | goes_on a' ↦ feed a' bytes
        ])
  drive_pass (goes_on a) h bytes n g = g a
  drive_pass (stops a message_ready) h bytes n g = refl
  drive_pass (stops a need_more) h bytes n g = absurd (n a need_more refl refl)
  drive_pass (stops a error_compressed) h bytes n g = refl
  drive_pass (stops a error_oversize) h bytes n g = refl

  pub drive-feed :
      (a : FrameAssembler) (h : H) (bytes : List ℕ) → drive a h bytes ≡ after_push h (feed a bytes)
  unfolding drive feed
  drive-feed a h [] = refl
  drive-feed a h (b ∷ bytes) =
      drive_pass (on_byte a b) h bytes (on_byte-status a b) (λ a'. drive-feed a' h bytes)

  feed_rest : (a : FrameAssembler) (bytes : List ℕ) → length (feed a bytes).rest ≤ length bytes
  unfolding feed
  feed_rest a [] = omega arith
  feed_rest a (b ∷ bytes) = elim (Pass-cases (on_byte a b)) [
    | inl (a', s, e) ↦ rw (feed_stop a b bytes a' s e) (omega arith)
    | inr (a', e) ↦ rw (feed_go a b bytes a' e) (omega (arith, feed_rest a' bytes))
  ]

  feed_rest_short :
      (a : FrameAssembler) (b : ℕ) (bytes : List ℕ)
      → length (feed a (b ∷ bytes)).rest ≤ length bytes
  feed_rest_short a b bytes = elim (Pass-cases (on_byte a b)) [
    | inl (a', s, e) ↦ rw (feed_stop a b bytes a' s e) (omega arith)
    | inr (a', e) ↦ rw (feed_go a b bytes a' e) (feed_rest a' bytes)
  ]

  chunk_loop_end :
      (fuel : ℕ) (a : FrameAssembler) (h : H)
      → chunk_loop handle_message fuel a h [] ≡ record { assembler = a; owner = h; failed = false }
  unfolding chunk_loop
  chunk_loop_end zero a h = refl
  chunk_loop_end (suc fuel) a h = refl

  -- One turn of the loop, by what the push returned.
  abbrev turn : ℕ → H → Pushed → Delivered H
  turn fuel h p = elim p.status [
    | need_more ↦ chunk_loop handle_message fuel p.assembler h p.rest
    | message_ready ↦
        chunk_loop handle_message fuel p.assembler (handle_message h p.assembler.msg) p.rest
    | _ ↦ record { assembler = p.assembler; owner = h; failed = true }
  ]

  turn_lem :
      (fuel : ℕ) (h : H) (p : Pushed)
      → (p.status ≡ need_more → p.rest ≡ [])
      → (p.status ≡ message_ready
          → (h' : H)
          → chunk_loop handle_message fuel p.assembler h' p.rest ≡ drive p.assembler h' p.rest)
      → turn fuel h p ≡ after_push h p
  turn_lem fuel h p waits again =
      elim p.status
          as (λ s.
            p.status ≡ s
            → turn fuel h (record p { status = s }) ≡ after_push h (record p { status = s })) [
              | need_more ↦ λ e.
                  ap (chunk_loop handle_message fuel p.assembler h) (waits e)
                  ∙ chunk_loop_end fuel p.assembler h
              | message_ready ↦ λ e. again e (handle_message h p.assembler.msg)
              | error_compressed ↦ λ e. refl
              | error_oversize ↦ λ e. refl
            ]
        refl

  pub chunk_loop-drive :
      (fuel : ℕ) (a : FrameAssembler) (h : H) (bytes : List ℕ)
      → IsOpen a
      → length bytes ≤ fuel
      → chunk_loop handle_message fuel a h bytes ≡ drive a h bytes
  unfolding chunk_loop
  chunk_loop-drive zero a h [] o l = unfold drive in refl
  chunk_loop-drive zero a h (b ∷ bytes) o l = absurd (omega (arith, l))
  chunk_loop-drive (suc fuel) a h [] o l = unfold drive in refl
  chunk_loop-drive (suc fuel) a h (b ∷ bytes) o l =
      let r = feed-IsResult a (b ∷ bytes) o in
      ap (turn fuel h) (push-feed a (b ∷ bytes) o.clean o.partial)
      ∙ turn_lem fuel h (feed a (b ∷ bytes)) (λ e. (r.waits e).1)
          (λ e h'.
            chunk_loop-drive fuel (feed a (b ∷ bytes)).assembler h' (feed a (b ∷ bytes)).rest
              (r.whole e).2 (omega (arith, l, feed_rest_short a b bytes)))
      ∙ sym (drive-feed a h (b ∷ bytes))

  -- Reading on where another chunk ended, unless that broke the protocol.
  abbrev pub go_on : Delivered H → List ℕ → Delivered H
  go_on d more = if d.failed then d else drive d.assembler d.owner more

  append_pass :
      (q : Pass) (h : H) (xs ys : List ℕ)
      → ((a : FrameAssembler) (h' : H) → drive a h' (xs ++ ys) ≡ go_on (drive a h' xs) ys)
      → (elim q as (λ _. Delivered H) [
        | goes_on a' ↦ drive a' h (xs ++ ys)
        | stops a' message_ready ↦ drive a' (handle_message h a'.msg) (xs ++ ys)
        | stops a' _ ↦ record { assembler = a'; owner = h; failed = true }
      ])
        ≡ go_on
            (elim q as (λ _. Delivered H) [
              | goes_on a' ↦ drive a' h xs
              | stops a' message_ready ↦ drive a' (handle_message h a'.msg) xs
              | stops a' _ ↦ record { assembler = a'; owner = h; failed = true }
            ])
            ys
  append_pass (goes_on a) h xs ys g = g a h
  append_pass (stops a message_ready) h xs ys g = g a (handle_message h a.msg)
  append_pass (stops a need_more) h xs ys g = refl
  append_pass (stops a error_compressed) h xs ys g = refl
  append_pass (stops a error_oversize) h xs ys g = refl

  pub drive-append :
      (a : FrameAssembler) (h : H) (xs ys : List ℕ) → drive a h (xs ++ ys) ≡ go_on (drive a h xs) ys
  unfolding drive
  drive-append a h [] ys = refl
  drive-append a h (b ∷ xs) ys =
      append_pass (on_byte a b) h xs ys (λ a' h'. drive-append a' h' xs ys)

  open_pass :
      (cap : ℕ) (q : Pass) (h : H) (bytes : List ℕ)
      → Leaves cap q
      → ((a : FrameAssembler) (h' : H)
          → IsOpen a
          → (drive a h' bytes).failed ≡ false
          → IsOpen (drive a h' bytes).assembler)
      → let d : Delivered H = elim q [
        | goes_on a' ↦ drive a' h bytes
        | stops a' message_ready ↦ drive a' (handle_message h a'.msg) bytes
        | stops a' _ ↦ record { assembler = a'; owner = h; failed = true }
      ] in
        d.failed ≡ false → IsOpen d.assembler
  open_pass cap (goes_on a) h bytes l g e = g a h l.1 e
  open_pass cap (stops a message_ready) h bytes l g e = g a (handle_message h a.msg) (l.1 refl).2 e
  open_pass cap (stops a need_more) h bytes l g e = cc
  open_pass cap (stops a error_compressed) h bytes l g e = cc
  open_pass cap (stops a error_oversize) h bytes l g e = cc

  pub drive-IsOpen :
      (a : FrameAssembler) (h : H) (bytes : List ℕ)
      → IsOpen a
      → (drive a h bytes).failed ≡ false
      → IsOpen (drive a h bytes).assembler
  unfolding drive
  drive-IsOpen a h [] o e = o
  drive-IsOpen a h (b ∷ bytes) o e =
      open_pass a.cap (on_byte a b) h bytes (on_byte-Leaves a b o)
        (λ a' h'. drive-IsOpen a' h' bytes) e
