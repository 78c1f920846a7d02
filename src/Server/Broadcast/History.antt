-- ===== src/Server/Broadcast/History.antt =====
-- The whole history of one subscription.
use alpr_li_dar_gate_automat.Server.Broadcast.{
  next, push_locked, DashboardEvent, DashboardSubscription, Subscriber, drain_now, fresh,
}
use alpr_li_dar_gate_automat.Base.{List, [], arith, refl, subst, sym, ℕ, ◌++◌, ◌∷◌}
use mathlib.Core.List.{append-nil, append_assoc}
use alpr_li_dar_gate_automat.Server.Broadcast.Queue.{
  take-IsFaithful, push-IsFaithful, drain-IsFaithful, IsFaithful, pushed, taken, Act, act, pushes,
  takes, drains,
}
use alpr_li_dar_gate_automat.Server.Broadcast.Order.{done}

module _ {A : Type 0} where
  -- The events that a history of acts pushes, and those that it takes out.
  abbrev pub stream_of : List (Act A) → List (DashboardEvent A)
  stream_of [] = []
  stream_of (a ∷ acts) = pushed a ++ stream_of acts

  unfoldable pub received_of : Subscriber A → List (Act A) → List (DashboardEvent A)
  received_of s [] = []
  received_of s (a ∷ acts) = taken s a ++ received_of (act s a) acts

  unfoldable pub after_acts : Subscriber A → List (Act A) → Subscriber A
  after_acts s [] = s
  after_acts s (a ∷ acts) = after_acts (act s a) acts

  drained :
      (s : Subscriber A) (stream received : List (DashboardEvent A))
      → IsFaithful s stream received
      → IsFaithful (drain_now s).0 stream (received ++ (drain_now s).1)
  unfolding drain_now
  drained s stream received f = unfold drain_now in drain-IsFaithful s stream received f

  act-IsFaithful :
      (s : Subscriber A) (a : Act A) (stream received : List (DashboardEvent A))
      → IsFaithful s stream received
      → IsFaithful (act s a) (stream ++ pushed a) (received ++ taken s a)
  unfolding act
  act-IsFaithful s (pushes e) stream received f =
      subst (λ l. IsFaithful (push_locked s e) (stream ++ e ∷ []) l) (sym (append-nil received))
        (push-IsFaithful s e stream received f)
  act-IsFaithful s takes stream received f =
      subst (λ l. IsFaithful (next s).0 l (received ++ taken s takes)) (sym (append-nil stream))
        (take-IsFaithful s stream received f)
  act-IsFaithful s drains stream received f =
      subst (λ l. IsFaithful (drain_now s).0 l (received ++ (drain_now s).1))
        (sym (append-nil stream)) (drained s stream received f)

  history-IsFaithful :
      (s : Subscriber A) (acts : List (Act A)) (stream received : List (DashboardEvent A))
      → IsFaithful s stream received
      → IsFaithful (after_acts s acts) (stream ++ stream_of acts) (received ++ received_of s acts)
  unfolding after_acts received_of
  history-IsFaithful s [] stream received f =
      subst (λ l. IsFaithful s l (received ++ [])) (sym (append-nil stream))
        (subst (λ l. IsFaithful s stream l) (sym (append-nil received)) f)
  history-IsFaithful s (a ∷ acts) stream received f =
      let next_s = act s a in
      subst
        (λ l.
          IsFaithful (after_acts next_s acts) l
            (received ++ (taken s a ++ received_of next_s acts)))
        (append_assoc stream (pushed a) (stream_of acts))
        (subst (λ l. IsFaithful (after_acts next_s acts) ((stream ++ pushed a) ++ stream_of acts) l)
          (append_assoc received (taken s a) (received_of next_s acts))
          (history-IsFaithful next_s acts (stream ++ pushed a) (received ++ taken s a)
            (act-IsFaithful s a stream received f)))

  -- A new subscriber, whatever is pushed, taken and drained in whatever order: what its owner has
  -- received comes in the order of the pushes; received, dropped and queued events make up the whole
  -- stream, the queued ones its end; without a drop nothing is missing; and a bounded queue
  -- never exceeds its capacity.
  pub after_acts-IsFaithful :
      (capacity : ℕ) (filter : DashboardSubscription) (acts : List (Act A))
      → let s = fresh capacity filter in
        IsFaithful (after_acts s acts) (stream_of acts) (received_of s acts)
  unfolding fresh
  after_acts-IsFaithful capacity filter acts =
      history-IsFaithful (fresh capacity filter) acts [] [] (record {
        past = [];
        parted = refl;
        counted = omega arith;
        in_order = done;
        lossless = λ h. refl;
        bounded = λ h. omega arith;
      })
