-- ===== src/Rpc/Framing/Bytes.antt =====
-- The assembler read byte by byte, as a reference for `push`, which copies payloads in runs.
use alpr_li_dar_gate_automat.Base.{
  sym, ◌∙◌, ◌≤◌, Bool-cases, inl, inr, refl, List, [], arith, drop, false, if◌then◌else◌, length,
  length-append, suc, take, true, zero, ℕ, ◌++◌, ◌+◌, ◌-◌, ◌<◌, ◌==◌, ◌∷◌, ◌≡◌,
}
use mathlib.Core.List.{append-nil, append_assoc}
use alpr_li_dar_gate_automat.Rpc.Framing.{
  List, ℕ, FrameAssembler, need_more, message_ready, Pass, stops, goes_on, Pushed, on_header_byte,
  on_payload, copied, push_loop, push, after_pass,
}

-- What one byte does.
unfoldable pub on_byte : FrameAssembler → ℕ → Pass
on_byte a b =
    if a.in_payload
    then (if length (a.msg ++ b ∷ []) == a.msg_len
        then stops (record a { msg = a.msg ++ b ∷ []; in_payload = false }) message_ready
        else goes_on (record a { msg = a.msg ++ b ∷ [] }))
    else on_header_byte a b

unfoldable pub feed : FrameAssembler → List ℕ → Pushed
feed a [] = record { assembler = a; status = need_more; rest = [] }
feed a (b ∷ bytes) = elim (on_byte a b) [
  | stops a' s ↦ record { assembler = a'; status = s; rest = bytes }
  | goes_on a' ↦ feed a' bytes
]

-- A payload in progress is not complete.
abbrev pub IsPartial : FrameAssembler → Type 0
IsPartial a = a.in_payload ≡ true → length a.msg < a.msg_len

abbrev pub GoesOn : Pass → (FrameAssembler → Type 0) → Type 0
GoesOn (stops a s) P = Unit {0}
GoesOn (goes_on a) P = P a

on_header_byte-IsPartial :
    (a : FrameAssembler) (b : ℕ) → a.in_payload ≡ false → GoesOn (on_header_byte a b) IsPartial
unfolding on_header_byte
on_header_byte-IsPartial a b h = ground arith

pub on_byte-IsPartial : (a : FrameAssembler) (b : ℕ) → IsPartial a → GoesOn (on_byte a b) IsPartial
unfolding on_byte
on_byte-IsPartial a b p = ground (arith, length-append a.msg (b ∷ []), on_header_byte-IsPartial a b)

length-take-drop : (n : ℕ) (xs : List ℕ) → length (take n xs) + length (drop n xs) ≡ length xs
length-take-drop zero xs = omega arith
length-take-drop (suc n) [] = omega arith
length-take-drop (suc n) (x ∷ xs) = omega (arith, length-take-drop n xs)

length-drop : (n : ℕ) (xs : List ℕ) → length (drop n xs) ≡ length xs - n
length-drop zero xs = omega arith
length-drop (suc n) [] = omega arith
length-drop (suc n) (x ∷ xs) = omega (arith, length-drop n xs)

on_payload-IsPartial :
    (a : FrameAssembler) (bytes : List ℕ) → IsPartial a → GoesOn (on_payload a bytes) IsPartial
unfolding on_payload
on_payload-IsPartial a bytes p = ground (
  arith,
  length-append a.msg (take (copied a bytes) bytes),
  length-take-drop (copied a bytes) bytes,
  length-drop (copied a bytes) bytes,
)

-- One byte of a longer run.
copied-cons :
    (a : FrameAssembler) (b : ℕ) (bytes : List ℕ)
    → suc (length a.msg) < a.msg_len
    → copied a (b ∷ bytes) ≡ suc (copied (record a { msg = a.msg ++ b ∷ [] }) bytes)
copied-cons a b bytes h = ground (arith, length-append a.msg (b ∷ []))

copied_last :
    (a : FrameAssembler) (b : ℕ) (bytes : List ℕ)
    → suc (length a.msg) ≡ a.msg_len
    → copied a (b ∷ bytes) ≡ 1
copied_last a b bytes h = ground arith

abbrev next : FrameAssembler → ℕ → FrameAssembler
next a b = record a { msg = a.msg ++ b ∷ [] }

feed-next :
    (a : FrameAssembler) (b : ℕ) (bytes : List ℕ)
    → a.in_payload ≡ true
    → suc (length a.msg) < a.msg_len
    → feed a (b ∷ bytes) ≡ feed (next a b) bytes
unfolding feed on_byte
feed-next a b bytes i h = ground (arith, length-append a.msg (b ∷ []))

on_payload-next :
    (a : FrameAssembler) (b : ℕ) (bytes : List ℕ)
    → suc (length a.msg) < a.msg_len
    → on_payload a (b ∷ bytes) ≡ on_payload (next a b) bytes
unfolding on_payload
on_payload-next a b bytes h = ground (
  arith,
  copied-cons a b bytes h,
  append_assoc a.msg (b ∷ []) (take (copied (next a b) bytes) bytes),
)

payload_last :
    (a : FrameAssembler) (b : ℕ) (bytes : List ℕ)
    → a.in_payload ≡ true
    → suc (length a.msg) ≡ a.msg_len
    → after_pass feed (drop (copied a (b ∷ bytes)) (b ∷ bytes)) (on_payload a (b ∷ bytes))
      ≡ feed a (b ∷ bytes)
unfolding on_payload feed on_byte after_pass
payload_last a b bytes i h =
    rw (copied_last a b bytes h)
      (ground (arith, copied_last a b bytes h, length-append a.msg (b ∷ [])))

payload_run :
    (bytes : List ℕ) (a : FrameAssembler)
    → a.in_payload ≡ true
    → length a.msg < a.msg_len
    → after_pass feed (drop (copied a bytes) bytes) (on_payload a bytes) ≡ feed a bytes
unfolding on_payload feed after_pass
payload_run [] a i h = ground (arith, append-nil a.msg)
payload_run (b ∷ bytes) a i h = elim (Bool-cases (suc (length a.msg) == a.msg_len)) [
  | inl e ↦ payload_last a b bytes i (ground arith)
  | inr n ↦
      payload_step (payload_run bytes (next a b) i (ground (arith, length-append a.msg (b ∷ []))))
        (ground arith)
]
  where
    payload_step :
        after_pass feed (drop (copied (next a b) bytes) bytes) (on_payload (next a b) bytes)
          ≡ feed (next a b) bytes
        → suc (length a.msg) < a.msg_len
        → after_pass feed (drop (copied a (b ∷ bytes)) (b ∷ bytes)) (on_payload a (b ∷ bytes))
          ≡ feed a (b ∷ bytes)
    payload_step ih more = ground (
      arith,
      ih,
      feed-next a b bytes i more,
      on_payload-next a b bytes more,
      copied-cons a b bytes more,
    )

-- `after_pass` asks for the rest only where the pass goes on.
after_pass-cong :
    (f g : FrameAssembler → List ℕ → Pushed) (rest : List ℕ) (q : Pass)
    → GoesOn q (λ a. f a rest ≡ g a rest)
    → after_pass f rest q ≡ after_pass g rest q
unfolding after_pass
after_pass-cong f g rest (stops a s) h = refl
after_pass-cong f g rest (goes_on a) h = h

GoesOn-map :
    {P R : FrameAssembler → Type 0} (q : Pass)
    → ((a : FrameAssembler) → P a → R a)
    → GoesOn q P
    → GoesOn q R
GoesOn-map (stops a s) f h = tt
GoesOn-map (goes_on a) f h = f a h

feed_header :
    (a : FrameAssembler) (b : ℕ) (bytes : List ℕ)
    → a.in_payload ≡ false
    → feed a (b ∷ bytes) ≡ after_pass feed bytes (on_header_byte a b)
unfolding feed on_byte after_pass
feed_header a b bytes h = ground arith

loop_header :
    (fuel : ℕ) (a : FrameAssembler) (b : ℕ) (bytes : List ℕ)
    → a.in_payload ≡ false
    → push_loop (suc fuel) a (b ∷ bytes) ≡ after_pass (push_loop fuel) bytes (on_header_byte a b)
unfolding push_loop
loop_header fuel a b bytes h = ground arith

loop_payload :
    (fuel : ℕ) (a : FrameAssembler) (b : ℕ) (bytes : List ℕ)
    → a.in_payload ≡ true
    → push_loop (suc fuel) a (b ∷ bytes)
      ≡ after_pass
          (push_loop fuel)
          (drop (copied a (b ∷ bytes)) (b ∷ bytes))
          (on_payload a (b ∷ bytes))
unfolding push_loop
loop_payload fuel a b bytes h = ground arith

-- A pass over a payload consumes a byte at least.
length-drop-copied :
    (a : FrameAssembler) (b : ℕ) (bytes : List ℕ)
    → length a.msg < a.msg_len
    → length (drop (copied a (b ∷ bytes)) (b ∷ bytes)) ≤ length bytes
length-drop-copied a b bytes h = ground (arith, length-drop (copied a (b ∷ bytes)) (b ∷ bytes))

loop_feed :
    (fuel : ℕ) (a : FrameAssembler) (bytes : List ℕ)
    → length bytes < fuel
    → IsPartial a
    → push_loop fuel a bytes ≡ feed a bytes
loop_feed zero a bytes h p = elim h [ ]
loop_feed (suc fuel) a [] h p = unfold feed push_loop in refl
loop_feed (suc fuel) a (b ∷ bytes) h p = elim (Bool-cases a.in_payload) [
  | inl i ↦
      let rest = drop (copied a (b ∷ bytes)) (b ∷ bytes) in
      let less = length-drop-copied a b bytes (p i) in
      loop_payload fuel a b bytes i
      ∙ (after_pass-cong (push_loop fuel) feed rest (on_payload a (b ∷ bytes)) (
            GoesOn-map (on_payload a (b ∷ bytes)) (λ a' p'. loop_feed fuel a' rest (omega arith) p')
              (on_payload-IsPartial a (b ∷ bytes) p))
          ∙ payload_run (b ∷ bytes) a i (p i))
  | inr n ↦
      loop_header fuel a b bytes n
      ∙ (after_pass-cong (push_loop fuel) feed bytes (on_header_byte a b) (
            GoesOn-map (on_header_byte a b) (λ a' p'. loop_feed fuel a' bytes (omega arith) p')
              (on_header_byte-IsPartial a b n))
          ∙ sym (feed_header a b bytes n))
]

-- On an assembler that is not poisoned, `push` ends within its fuel and does what reading the
-- bytes one by one does: same assembler, status and unread rest.
pub push-feed :
    (a : FrameAssembler) (bytes : List ℕ)
    → a.poisoned ≡ false
    → IsPartial a
    → push a bytes ≡ feed a bytes
unfolding push
push-feed a bytes h p = ground (arith, loop_feed (suc (length bytes)) a bytes (omega arith) p)
