-- ===== src/Rpc/Session/Outbound.antt =====
-- Frames that leave: the queue, the frame in flight and what nghttp2 reads of it.
use alpr_li_dar_gate_automat.Machine.Types.{none}
use alpr_li_dar_gate_automat.Rpc.Session.{read_size, sent, ControlSession, data_read, refill}
use alpr_li_dar_gate_automat.Base.{
  All-snoc, if_true, holds_if, ◌==◌, All, List, [], ap, arith, drop, if◌then◌else◌, length, none,
  refl, some, suc, sym, take, true, zero, ℕ, ◌++◌, ◌+◌, ◌<◌, ◌∙◌, ◌∷◌, ◌≡◌,
}
use mathlib.Core.List.{append-nil, append_assoc}

-- `posts` is a frame that `send_envelope` has put on the queue.
pub data Step : Type 0 where
  posts : List ℕ → Step
  refills : Step
  reads : ℕ → Step

abbrev pub concat : List (List ℕ) → List ℕ
concat [] = []
concat (frame ∷ frames) = frame ++ concat frames

unfoldable pub step : ControlSession → List (List ℕ) → Step → ControlSession × List (List ℕ)
step s queue (posts frame) = (s, queue ++ frame ∷ [])
step s queue refills = refill s queue
step s queue (reads room) = ((data_read s room).0, queue)

-- The bytes that a step puts on the wire, and those that it adds to what must go there.
abbrev pub written : ControlSession → Step → List ℕ
written s (reads room) = elim (data_read s room).1 [ none ↦ [] | some bytes ↦ bytes ]
written s _ = []

abbrev pub posted : Step → List ℕ
posted (posts frame) = frame
posted _ = []

unfoldable pub run_steps :
    ControlSession → List (List ℕ) → List Step → ControlSession × List (List ℕ)
run_steps s queue [] = (s, queue)
run_steps s queue (a ∷ steps) = run_steps (step s queue a).0 (step s queue a).1 steps

unfoldable pub written_by : ControlSession → List (List ℕ) → List Step → List ℕ
written_by s queue [] = []
written_by s queue (a ∷ steps) =
    written s a ++ written_by (step s queue a).0 (step s queue a).1 steps

abbrev pub posted_by : List Step → List ℕ
posted_by [] = []
posted_by (a ∷ steps) = posted a ++ posted_by steps

-- What is still to be written.
abbrev pub backlog : ControlSession → List (List ℕ) → List ℕ
backlog s queue = (if s.has_current then drop s.current_off s.current else []) ++ concat queue

-- A frame in flight has a byte to go, and so has each that waits.
pub record IsValid (s : ControlSession) (queue : List (List ℕ)) : Type 0 where
  pub in_flight : s.has_current ≡ true → s.current_off < length s.current
  pub waiting : All (λ frame. 0 < length frame) queue

take-drop : (n : ℕ) (xs : List ℕ) → take n xs ++ drop n xs ≡ xs
take-drop zero xs = refl
take-drop (suc n) [] = refl
take-drop (suc n) (x ∷ xs) = ap (λ l. x ∷ l) (take-drop n xs)

drop_nil : (n : ℕ) → drop {A = ℕ} n [] ≡ []
drop_nil zero = refl
drop_nil (suc n) = refl

drop-drop : (m n k : ℕ) (xs : List ℕ) → m + n ≡ k → drop n (drop m xs) ≡ drop k xs
drop-drop zero n k xs e = let same : n ≡ k = omega (arith, e) in ap (λ i. drop i xs) same
drop-drop (suc m) n k [] e = drop_nil n ∙ sym (drop_nil k)
drop-drop (suc m) n zero (x ∷ xs) e = absurd (omega (arith, e))
drop-drop (suc m) n (suc k) (x ∷ xs) e = drop-drop m n k xs (omega (arith, e))

drop_all : (n : ℕ) (xs : List ℕ) → n ≡ length xs → drop n xs ≡ []
drop_all zero [] e = refl
drop_all zero (x ∷ xs) e = absurd (omega (arith, e))
drop_all (suc n) [] e = refl
drop_all (suc n) (x ∷ xs) e = drop_all n xs (omega (arith, e))

concat_snoc :
    (queue : List (List ℕ)) (frame : List ℕ) → concat (queue ++ frame ∷ []) ≡ concat queue ++ frame
concat_snoc [] frame = append-nil frame
concat_snoc (f ∷ queue) frame =
    ap (λ l. f ++ l) (concat_snoc queue frame) ∙ sym (append_assoc f (concat queue) frame)

-- A frame is what is read of it and what is left.
cut_frame :
    (off n : ℕ) (frame : List ℕ) → take n (drop off frame) ++ drop (off + n) frame ≡ drop off frame
cut_frame off n frame =
    ap (λ l. take n (drop off frame) ++ l) (sym (drop-drop off n (off + n) frame refl))
    ∙ take-drop n (drop off frame)

sent_balance :
    (s : ControlSession) (queue : List (List ℕ)) (n : ℕ)
    → s.has_current ≡ true
    → take n (drop s.current_off s.current) ++ backlog (sent s n) queue
      ≡ drop s.current_off s.current ++ concat queue
unfolding sent
sent_balance s queue n h =
    let off = s.current_off + n in
    let piece = take n (drop s.current_off s.current) in
    let cut =
      sym (append_assoc piece (drop off s.current) (concat queue))
      ∙ ap (λ l. l ++ concat queue) (cut_frame s.current_off n s.current) in
    holds_if (λ s'. piece ++ backlog s' queue ≡ drop s.current_off s.current ++ concat queue)
      (off == length s.current)
      (λ e.
        ap (λ l. piece ++ (l ++ concat queue)) (sym (drop_all off s.current (ground (arith, e))))
        ∙ cut)
      (λ e. ap (λ l. piece ++ (l ++ concat queue)) (if_true (drop off s.current) [] h) ∙ cut)

read_balance :
    (s : ControlSession) (queue : List (List ℕ)) (room : ℕ)
    → written s (reads room) ++ backlog (data_read s room).0 queue ≡ backlog s queue
unfolding data_read
read_balance s queue room = ground (arith, sent_balance s queue (read_size s room))

refill_balance :
    (s : ControlSession) (queue : List (List ℕ))
    → backlog (refill s queue).0 (refill s queue).1 ≡ backlog s queue
unfolding refill
refill_balance s [] = ground arith
refill_balance s (frame ∷ queue) = ground arith

step_balance :
    (s : ControlSession) (queue : List (List ℕ)) (a : Step)
    → written s a ++ backlog (step s queue a).0 (step s queue a).1 ≡ backlog s queue ++ posted a
unfolding step
step_balance s queue (posts frame) =
    let ahead : List ℕ = if s.has_current then drop s.current_off s.current else [] in
    ap (λ l. ahead ++ l) (concat_snoc queue frame) ∙ sym (append_assoc ahead (concat queue) frame)
step_balance s queue refills = refill_balance s queue ∙ sym (append-nil (backlog s queue))
step_balance s queue (reads room) = read_balance s queue room ∙ sym (append-nil (backlog s queue))

abbrev pub PostsBytes : Step → Type 0
PostsBytes (posts frame) = 0 < length frame
PostsBytes _ = Unit

refill-IsValid :
    (s : ControlSession) (queue : List (List ℕ))
    → IsValid s queue
    → IsValid (refill s queue).0 (refill s queue).1
unfolding refill
refill-IsValid s [] v = ground (arith, v)
refill-IsValid s (frame ∷ queue) v = ground (arith, v)

read-IsValid :
    (s : ControlSession) (queue : List (List ℕ)) (room : ℕ)
    → IsValid s queue
    → IsValid (data_read s room).0 queue
unfolding data_read sent
read-IsValid s queue room v = ground (arith, v)

step-IsValid :
    (s : ControlSession) (queue : List (List ℕ)) (a : Step)
    → PostsBytes a
    → IsValid s queue
    → IsValid (step s queue a).0 (step s queue a).1
unfolding step
step-IsValid s queue (posts frame) b v = record {
  in_flight = v.in_flight;
  waiting = All-snoc (λ f. 0 < length f) queue frame v.waiting b;
}
step-IsValid s queue refills b v = refill-IsValid s queue v
step-IsValid s queue (reads room) b v = read-IsValid s queue room v

-- From a valid session on: whatever is posted, taken from the queue and read in whatever order and
-- with whatever room, the bytes on the wire followed by what is still to be written are what was to
-- be written before followed by the frames posted, in order; and the session stays valid.
pub run_steps_balance :
    (s : ControlSession) (queue : List (List ℕ)) (steps : List Step)
    → IsValid s queue
    → All PostsBytes steps
    → let r = run_steps s queue steps in
      (written_by s queue steps ++ backlog r.0 r.1 ≡ backlog s queue ++ posted_by steps)
      × IsValid r.0 r.1
unfolding run_steps written_by
run_steps_balance s queue [] v b = (sym (append-nil (backlog s queue)), v)
run_steps_balance s queue (a ∷ steps) v b =
    let s' = (step s queue a).0 in
    let queue' = (step s queue a).1 in
    let (balance, v') = run_steps_balance s' queue' steps (step-IsValid s queue a b.0 v) b.1 in
    (
      append_assoc (written s a) (written_by s' queue' steps)
            (backlog (run_steps s' queue' steps).0 (run_steps s' queue' steps).1)
          ∙ ap (λ l. written s a ++ l) balance
          ∙ sym (append_assoc (written s a) (backlog s' queue') (posted_by steps))
          ∙ ap (λ l. l ++ posted_by steps) (step_balance s queue a)
          ∙ append_assoc (backlog s queue) (posted a) (posted_by steps),
      v',
    )
