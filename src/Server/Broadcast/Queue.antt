-- ===== src/Server/Broadcast/Queue.antt =====
-- The queue of one subscriber against the stream of events that were pushed to it.
use alpr_li_dar_gate_automat.Server.Broadcast.Order.{
  Subsequence, Subsequence-append, Subsequence-snoc,
}
use alpr_li_dar_gate_automat.Machine.Types.{none}
use alpr_li_dar_gate_automat.Server.Broadcast.{
  DashboardEvent, Subscriber, drain_now, next, push_locked,
}
use alpr_li_dar_gate_automat.Base.{
  Option, drop, refl, subst, List, [], ap, arith, holds_if, leb, length, length-append, ltb, none,
  some, sym, ◌&&◌, ◌++◌, ◌+◌, ◌<◌, ◌∙◌, ◌∷◌, ◌≡◌, ◌≤◌,
}
use mathlib.Core.List.{append-nil, append_assoc}

pub data Act (A : Type 0) : Type 0 where
  pushes : DashboardEvent A → Act A
  takes drains : Act A

module _ {A : Type 0} where
  unfoldable pub act : Subscriber A → Act A → Subscriber A
  act s (pushes e) = push_locked s e
  act s takes = (next s).0
  act s drains = (drain_now s).0

  abbrev pub pushed : Act A → List (DashboardEvent A)
  pushed (pushes e) = e ∷ []
  pushed _ = []

  abbrev pub taken : Subscriber A → Act A → List (DashboardEvent A)
  taken s (pushes e) = []
  taken s takes = elim (next s).1 [ none ↦ [] | some e ↦ e ∷ [] ]
  taken s drains = (drain_now s).1

  -- How the queue and what its owner has received stand to the stream of pushes.
  pub record IsFaithful (s : Subscriber A) (stream received : List (DashboardEvent A))
      : Type 0 where
    pub past : List (DashboardEvent A)
    pub parted : past ++ s.queue ≡ stream
    pub counted : length past ≡ length received + s.dropped
    pub in_order : Subsequence received past
    pub lossless : s.dropped ≡ 0 → received ≡ past
    pub bounded : 0 < s.capacity → length s.queue ≤ s.capacity

  drop-IsFaithful :
      (s : Subscriber A) (e : DashboardEvent A) (stream received q : List (DashboardEvent A))
      → s.queue ≡ q
      → 0 < s.capacity
      → s.capacity ≤ length s.queue
      → IsFaithful s stream received
      → IsFaithful
          (record s { queue = drop 1 s.queue ++ e ∷ []; dropped = s.dropped + 1 })
          (stream ++ e ∷ [])
          received
  drop-IsFaithful s e stream received [] i c full f = absurd (omega (arith, ap length i))
  drop-IsFaithful s e stream received (x ∷ q) i c full f = record {
    past = f.past ++ x ∷ [];
    parted =
        ap (λ l. (f.past ++ x ∷ []) ++ (drop 1 l ++ e ∷ [])) i
        ∙ append_assoc f.past (x ∷ []) (q ++ e ∷ [])
        ∙ sym (append_assoc f.past (x ∷ q) (e ∷ []))
        ∙ ap (λ l. (f.past ++ l) ++ e ∷ []) (sym i)
        ∙ ap (λ l. l ++ e ∷ []) f.parted;
    counted = omega (arith, f.counted, length-append {0} f.past (x ∷ []));
    in_order = Subsequence-snoc x f.in_order;
    lossless = λ h. absurd (omega arith);
    bounded = λ h. omega (
      arith,
      f.bounded h,
      ap length i,
      ap (λ l. length (drop 1 l)) i,
      length-append {0} (drop 1 s.queue) (e ∷ []),
    );
  }

  pub push-IsFaithful :
      (s : Subscriber A) (e : DashboardEvent A) (stream received : List (DashboardEvent A))
      → IsFaithful s stream received
      → IsFaithful (push_locked s e) (stream ++ e ∷ []) received
  unfolding push_locked
  push-IsFaithful s e stream received f =
      holds_if (λ s'. IsFaithful s' (stream ++ e ∷ []) received)
        (ltb 0 s.capacity && leb s.capacity (length s.queue))
        (λ full.
          drop-IsFaithful s e stream received s.queue refl (ground (arith, full))
            (ground (arith, full)) f)
        (λ room. record {
          past = f.past;
          parted = sym (append_assoc f.past s.queue (e ∷ [])) ∙ ap (λ l. l ++ e ∷ []) f.parted;
          counted = f.counted;
          in_order = f.in_order;
          lossless = f.lossless;
          bounded = λ h. ground (arith, room, f.bounded h, length-append s.queue (e ∷ []));
        })

  takes_first :
      (s : Subscriber A) (stream received q : List (DashboardEvent A)) (x : DashboardEvent A)
      → s.queue ≡ x ∷ q
      → IsFaithful s stream received
      → IsFaithful (record s { queue = q }) stream (received ++ x ∷ [])
  takes_first s stream received q x i f = record {
    past = f.past ++ x ∷ [];
    parted = append_assoc f.past (x ∷ []) q ∙ ap (λ l. f.past ++ l) (sym i) ∙ f.parted;
    counted =
        omega (
          arith,
          f.counted,
          length-append {0} f.past (x ∷ []),
          length-append {0} received (x ∷ []),
        );
    in_order = Subsequence-append (x ∷ []) f.in_order;
    lossless = λ h. ap (λ l. l ++ x ∷ []) (f.lossless h);
    bounded = λ h. omega (arith, f.bounded h, ap length i);
  }

  pub take-IsFaithful :
      (s : Subscriber A) (stream received : List (DashboardEvent A))
      → IsFaithful s stream received
      → IsFaithful (next s).0 stream (received ++ taken s takes)
  unfolding next
  take-IsFaithful s stream received f = go s.queue refl
    where
      go :
          (q : List (DashboardEvent A))
          → s.queue ≡ q
          → let r : Subscriber A × Option (DashboardEvent A) = elim q [
            | [] ↦ (s, none)
            | e ∷ rest ↦ (record s { queue = rest }, some e)
          ] in
            IsFaithful r.0 stream (received ++ (elim r.1 [ none ↦ [] | some e ↦ e ∷ [] ]))
      go [] i = subst (λ l. IsFaithful s stream l) (sym (append-nil received)) f
      go (x ∷ q) i = takes_first s stream received q x i f

  pub drain-IsFaithful :
      (s : Subscriber A) (stream received : List (DashboardEvent A))
      → IsFaithful s stream received
      → IsFaithful (drain_now s).0 stream (received ++ s.queue)
  unfolding drain_now
  drain-IsFaithful s stream received f = record {
    past = f.past ++ s.queue;
    parted = append-nil (f.past ++ s.queue) ∙ f.parted;
    counted =
        omega
          (arith, f.counted, length-append {0} f.past s.queue, length-append {0} received s.queue);
    in_order = Subsequence-append s.queue f.in_order;
    lossless = λ h. ap (λ l. l ++ s.queue) (f.lossless h);
    bounded = λ h. omega arith;
  }
