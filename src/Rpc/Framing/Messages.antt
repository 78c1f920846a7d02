-- ===== src/Rpc/Framing/Messages.antt =====
-- Messages over a stream: chunk borders do not matter, and what was framed is read back.
use alpr_li_dar_gate_automat.Base.{
  suc, if◌then◌else◌, ◌==◌, false, length, length-append, subst, sym, true, ◌*◌, ◌+◌, ◌<◌, ◌∙◌, ◌≤◌,
  List, [], arith, inl, inr, refl, ℕ, ◌++◌, ◌∷◌, ◌≡◌, ◌≢◌, ◌⊎◌,
}
use mathlib.Core.List.{append_assoc}
use alpr_li_dar_gate_automat.Rpc.Framing.{
  reset, error_oversize, make_frame_header, List, ℕ, FrameAssembler, Status, need_more,
  message_ready, Pass, stops, goes_on, Pushed, on_header_byte, push, byte_at,
}
use alpr_li_dar_gate_automat.Rpc.Framing.Bytes.{on_byte, feed, push-feed}

-- Reading on in the next chunk, unless the first one already ended with a status.
abbrev pub resume : Pushed → (FrameAssembler → Pushed) → List ℕ → Pushed
resume p f more = elim p.status [
  | need_more ↦ f p.assembler
  | _ ↦ record p { rest = p.rest ++ more }
]

pub feed_stop :
    (a : FrameAssembler) (b : ℕ) (bytes : List ℕ) (a' : FrameAssembler) (s : Status)
    → on_byte a b ≡ stops a' s
    → feed a (b ∷ bytes) ≡ record { assembler = a'; status = s; rest = bytes }
unfolding feed
feed_stop a b bytes a' s e = rw (e, feed)

pub feed_go :
    (a : FrameAssembler) (b : ℕ) (bytes : List ℕ) (a' : FrameAssembler)
    → on_byte a b ≡ goes_on a'
    → feed a (b ∷ bytes) ≡ feed a' bytes
unfolding feed
feed_go a b bytes a' e = rw (e, feed)

pub Pass-cases :
    (q : Pass)
    → ((a : FrameAssembler) × (s : Status) × (q ≡ stops a s))
      ⊎ ((a : FrameAssembler) × (q ≡ goes_on a))
Pass-cases (stops a s) = inl (a, s, refl)
Pass-cases (goes_on a) = inr (a, refl)

pub on_byte-status :
    (a : FrameAssembler) (b : ℕ) (a' : FrameAssembler) (s : Status)
    → on_byte a b ≡ stops a' s
    → s ≢ need_more
unfolding on_byte on_header_byte
on_byte-status a b a' s e = ground arith

feed-append :
    (a : FrameAssembler) (xs ys : List ℕ)
    → feed a (xs ++ ys) ≡ resume (feed a xs) (λ a'. feed a' ys) ys
feed-append a [] ys = unfold feed in refl
feed-append a (b ∷ xs) ys = elim (Pass-cases (on_byte a b)) [
  | inl (a', s, e) ↦
      ground
        (arith, feed_stop a b (xs ++ ys) a' s e, feed_stop a b xs a' s e, on_byte-status a b a' s e)
  | inr (a', e) ↦ rw (feed_go a b (xs ++ ys) a' e) (rw (feed_go a b xs a' e) (feed-append a' xs ys))
]

-- Between pushes: not poisoned, and within the limits of prefix and buffer.
pub record IsOpen (a : FrameAssembler) : Type 0 where
  pub clean : a.poisoned ≡ false
  pub prefix_short : length a.header < 5
  pub partial : a.in_payload ≡ true → length a.msg < a.msg_len
  pub fits : a.in_payload ≡ true → a.msg_len ≤ a.cap

-- What a pass leaves: never more bytes in the buffer than it can hold.
abbrev pub Leaves : ℕ → Pass → Type 0
Leaves cap (stops a s) =
    (a.cap ≡ cap) × (s ≡ message_ready → (length a.msg ≡ a.msg_len) × (a.msg_len ≤ cap) × IsOpen a)
Leaves cap (goes_on a) = (a.cap ≡ cap) × IsOpen a

pub on_byte-Leaves : (a : FrameAssembler) (b : ℕ) → IsOpen a → Leaves a.cap (on_byte a b)
unfolding on_byte on_header_byte
on_byte-Leaves a b o = ground (arith, length-append a.msg (b ∷ []), length-append a.header (b ∷ []))

-- What a push may leave behind.
pub record IsResult (cap : ℕ) (p : Pushed) : Type 0 where
  pub same_cap : p.assembler.cap ≡ cap
  pub waits : p.status ≡ need_more → IsOpen p.assembler × (p.rest ≡ [])
  pub whole :
      p.status ≡ message_ready
      → (length p.assembler.msg ≡ p.assembler.msg_len)
        × (p.assembler.msg_len ≤ cap)
        × IsOpen p.assembler

pub feed-IsResult : (a : FrameAssembler) (bytes : List ℕ) → IsOpen a → IsResult a.cap (feed a bytes)
feed-IsResult a [] o = unfold feed in ground (arith, o)
feed-IsResult a (b ∷ bytes) o = elim (Pass-cases (on_byte a b)) [
  | inl (a', s, e) ↦
      rw (feed_stop a b bytes a' s e)
        (stopped a' s (subst (Leaves a.cap) e (on_byte-Leaves a b o)) (on_byte-status a b a' s e))
  | inr (a', e) ↦
      let (c, o') = subst (Leaves a.cap) e (on_byte-Leaves a b o) in
      rw (feed_go a b bytes a' e)
        (subst (λ c. IsResult c (feed a' bytes)) c (feed-IsResult a' bytes o'))
]
  where
    stopped :
        (a' : FrameAssembler) (s : Status)
        → Leaves a.cap (stops a' s)
        → s ≢ need_more
        → IsResult a.cap (record { assembler = a'; status = s; rest = bytes })
    stopped a' s l n = ground (arith, l)

-- Whatever the bytes, a push of an open assembler keeps its capacity; if it asks for more it has
-- consumed all bytes and stays open; if it reports a message, that is as long as was declared and
-- fits the buffer.
pub push-IsResult : (a : FrameAssembler) (bytes : List ℕ) → IsOpen a → IsResult a.cap (push a bytes)
push-IsResult a bytes o = rw (push-feed a bytes o.clean o.partial) (feed-IsResult a bytes o)

resume-cong :
    (p : Pushed) (f g : FrameAssembler → Pushed) (more : List ℕ)
    → (p.status ≡ need_more → f p.assembler ≡ g p.assembler)
    → resume p f more ≡ resume p g more
resume-cong p f g more h = ground arith

-- Chunk borders do not matter: pushing two chunks joined is pushing the first and, if it asks for
-- more, the second; otherwise the second is left unread behind the rest of the first.
pub push-append :
    (a : FrameAssembler) (xs ys : List ℕ)
    → IsOpen a
    → push a (xs ++ ys) ≡ resume (push a xs) (λ a'. push a' ys) ys
push-append a xs ys o = rw (push-feed a (xs ++ ys) o.clean o.partial) (
    rw (push-feed a xs o.clean o.partial) (
      feed-append a xs ys
      ∙ resume-cong (feed a xs) (λ a'. feed a' ys) (λ a'. push a' ys) ys
          (λ e.
            let o' = ((feed-IsResult a xs o).waits e).0 in
            sym (push-feed (feed a xs).assembler ys o'.clean o'.partial))))

feed_payload :
    (p : List ℕ) (a : FrameAssembler) (rest : List ℕ)
    → a.in_payload ≡ true
    → p ≢ []
    → length a.msg + length p ≡ a.msg_len
    → feed a (p ++ rest) ≡ record {
      assembler = record a { msg = a.msg ++ p; in_payload = false };
      status = message_ready;
      rest = rest;
    }
unfolding feed on_byte
feed_payload [] a rest i n h = absurd (n refl)
feed_payload (b ∷ []) a rest i n h = ground (arith, length-append a.msg (b ∷ []))
feed_payload (b ∷ c ∷ p) a rest i n h = ground (
  arith,
  length-append a.msg (b ∷ []),
  append_assoc a.msg (b ∷ []) (c ∷ p),
  feed_payload (c ∷ p) (record a { msg = a.msg ++ b ∷ [] }) rest i (λ e. cc)
      (omega (arith, length-append a.msg (b ∷ []))),
)

header_value :
    (n : ℕ)
    → n < 4_294_967_296
    → byte_at n 16_777_216 * 16_777_216
        + byte_at n 65_536 * 65_536
        + byte_at n 256 * 256
        + byte_at n 1
      ≡ n
header_value n h = omega arith

-- Between two messages.
pub record IsFresh (a : FrameAssembler) : Type 0 where
  pub is_open : IsOpen a
  pub no_prefix : a.header ≡ []
  pub no_payload : a.in_payload ≡ false

feed_header :
    (a : FrameAssembler) (n : ℕ) (more : List ℕ)
    → IsFresh a
    → n < 4_294_967_296
    → n ≤ a.cap
    → feed a (make_frame_header n ++ more) ≡ (
        if n == 0
        then record {
          assembler = record a { header = []; msg_len = n; msg = []; in_payload = false };
          status = message_ready;
          rest = more;
        }
        else feed (record a { header = []; msg_len = n; msg = []; in_payload = true }) more)
unfolding feed on_byte on_header_byte make_frame_header
feed_header a n more f h k = ground (arith, header_value n h)

refused :
    (a : FrameAssembler) (n : ℕ) (more : List ℕ)
    → IsFresh a
    → n < 4_294_967_296
    → a.cap < n
    → feed a (make_frame_header n ++ more) ≡ record {
      assembler = record a { header = []; msg_len = n; poisoned = true };
      status = error_oversize;
      rest = more;
    }
unfolding feed on_byte on_header_byte make_frame_header
refused a n more f h k = ground (arith, header_value n h)

-- Round trip: a fresh assembler that is pushed a framed payload of at most its capacity reports
-- the message, holds exactly the payload, is fresh again, and leaves what follows unread.
pub push-make_frame_header :
    (a : FrameAssembler) (p rest : List ℕ)
    → IsFresh a
    → length p < 4_294_967_296
    → length p ≤ a.cap
    → let r = push a (make_frame_header (length p) ++ (p ++ rest)) in
      (r.status ≡ message_ready)
      × (r.assembler.msg ≡ p)
      × (r.assembler.msg_len ≡ length p)
      × (r.rest ≡ rest)
      × IsFresh r.assembler
push-make_frame_header a p rest f h k =
    rw (push-feed a (make_frame_header (length p) ++ (p ++ rest)) f.is_open.clean f.is_open.partial)
      (rw (feed_header a (length p) (p ++ rest) f h k) (framed p k))
  where
    framed :
        (p : List ℕ)
        → length p ≤ a.cap
        → let r =
            if length p == 0
            then record {
              assembler = record a {
                header = [];
                msg_len = length p;
                msg = [];
                in_payload = false;
              };
              status = message_ready;
              rest = p ++ rest;
            }
            else feed
                (record a { header = []; msg_len = length p; msg = []; in_payload = true })
                (p ++ rest) in
          (r.status ≡ message_ready)
          × (r.assembler.msg ≡ p)
          × (r.assembler.msg_len ≡ length p)
          × (r.rest ≡ rest)
          × IsFresh r.assembler
    framed [] k = ground (arith, f.is_open)
    framed (b ∷ q) k =
        rw
          (feed_payload (b ∷ q)
            (record a { header = []; msg_len = suc (length q); msg = []; in_payload = true }) rest
            refl (λ e. cc) (omega arith))
          (ground (arith, f.is_open))

-- A declared length beyond the capacity is refused as soon as the prefix is complete: no byte of
-- the payload is consumed, and every later push is refused until `reset`.
pub push_oversize :
    (a : FrameAssembler) (n : ℕ) (more later : List ℕ)
    → IsFresh a
    → n < 4_294_967_296
    → a.cap < n
    → let r = push a (make_frame_header n ++ more) in
      (r.status ≡ error_oversize)
      × (r.rest ≡ more)
      × (push r.assembler later
          ≡ record { assembler = r.assembler; status = error_oversize; rest = later })
      × IsFresh (reset r.assembler)
push_oversize a n more later f h k =
    rw (push-feed a (make_frame_header n ++ more) f.is_open.clean f.is_open.partial)
      (rw (refused a n more f h k) (refl, refl, unfold push in refl, unfold reset in ground arith))
