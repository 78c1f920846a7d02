-- ===== src/Server/Services/Dashboards.antt =====
-- What Subscribe writes to a dashboard.
use alpr_li_dar_gate_automat.Base.{
  ◌-◌, ℕ, zero, suc, true, false, List, [], ◌∷◌, ◌++◌, some, ◌≡◌, refl, ap, ◌∙◌, sym, arith, ◌⊎◌,
  ◌+◌, ◌≤◌, length, replicate, subst,
}
use alpr_li_dar_gate_automat.Server.Broadcast.{
  DashboardEvent, DashboardSubscription, EventEnvelope, Subscriber, fresh, drain_now, on_subscriber,
  subscribe, next, push_locked, EventBroadcaster, replay,
}
use alpr_li_dar_gate_automat.Server.Broadcast.Ring.{
  Publication, log_from, publish_all, offer_log, IsLogged, length-log_from,
}
use alpr_li_dar_gate_automat.Server.Broadcast.Stream.{
  push_all, matching, unseen, IsOpen, offer_each, offer_each-matching, push_all-IsOpen,
  push_all_filter, replay-unseen, publish_all-subs, offer_log_snoc, unseen-drop,
}
use alpr_li_dar_gate_automat.Server.Decision.{FloatApi}
use alpr_li_dar_gate_automat.Server.Services.{fine, Server, Payload}
use alpr_li_dar_gate_automat.Server.Services.Delivery.{HasRoom, push_all_queue}
use alpr_li_dar_gate_automat.Server.Services.Control.{
  Round, writes, dashboard_round, open_dashboard, write_replay,
}

module _ {A : Type 0} where
  write_replay_all : (es : List A) → write_replay (replicate (length es) true) es ≡ (es, true)
  unfolding write_replay
  write_replay_all [] = refl
  write_replay_all (e ∷ es) = rw (write_replay_all es) refl

  on_subscriber_snoc :
      (f : Subscriber A → Subscriber A) (subs : List (Subscriber A)) (s : Subscriber A)
      → on_subscriber f (length subs) (subs ++ s ∷ []) ≡ subs ++ f s ∷ []
  unfolding on_subscriber
  on_subscriber_snoc f [] s = refl
  on_subscriber_snoc f (t ∷ subs) s = ap (λ l. t ∷ l) (on_subscriber_snoc f subs s)

  length-matching_any :
      (f : DashboardSubscription) (log : List (EventEnvelope A))
      → length (matching f log) ≤ length log
  unfolding matching
  length-matching_any f [] = omega arith
  length-matching_any f (env ∷ log) = ground (arith, length-matching_any f log)

  length-unseen :
      (f : DashboardSubscription) (log : List (EventEnvelope A))
      → length (unseen f log) ≤ length log
  unfolding unseen
  length-unseen f [] = omega arith
  length-unseen f (env ∷ log) = ground (arith, length-unseen f log)

  push_all_capacity :
      (s : Subscriber A) (es : List (DashboardEvent A)) → (push_all s es).capacity ≡ s.capacity
  unfolding push_locked
  push_all_capacity s [] = refl
  push_all_capacity s (e ∷ es) =
      let one : (push_locked s e).capacity ≡ s.capacity = ground arith in
      push_all_capacity (push_locked s e) es ∙ one

module _ {F : FloatApi} where
  abbrev kept : Round (DashboardEvent (Payload F)) → List (DashboardEvent (Payload F))
  kept (writes e) = e ∷ []
  kept _ = []

  -- `n` rounds of the live loop for a client that takes what is written.
  unfoldable pub run_dashboard : ℕ → Subscriber (Payload F) → List (DashboardEvent (Payload F))
  run_dashboard zero s = []
  run_dashboard (suc n) s =
      let r = dashboard_round false false true s in kept r.1 ++ run_dashboard n r.0

  run_dashboard_queue :
      (s : Subscriber (Payload F)) (es : List (DashboardEvent (Payload F)))
      → run_dashboard (length es) (record s { queue = es }) ≡ es
  unfolding run_dashboard dashboard_round next
  run_dashboard_queue s [] = refl
  run_dashboard_queue s (e ∷ es) = ap (λ l. e ∷ l) (run_dashboard_queue s es)

  -- The live loop on a subscription that is open, empty and has room for what is offered.
  live_stream :
      (d : Subscriber (Payload F)) (f : DashboardSubscription)
      (log : List (EventEnvelope (Payload F)))
      → IsOpen d
      → d.filter ≡ f
      → d.queue ≡ []
      → (d.capacity ≡ 0) ⊎ (length log ≤ d.capacity)
      → let live = offer_each d log in run_dashboard (length live.queue) live ≡ matching f log
  live_stream d f log open_d filter_d empty room =
      let live = offer_each d log in
      let es = matching f log in
      let fits : HasRoom d (length es) = ground (arith, room, empty, length-matching_any f log) in
      let pushed : live ≡ push_all d es =
        offer_each-matching d log open_d ∙ ap (λ g. push_all d (matching g log)) filter_d in
      run_dashboard_queue live live.queue
      ∙ ap (λ t. t.queue) pushed
      ∙ push_all_queue d es fits
      ∙ ap (λ q. q ++ es) empty

  -- What a new subscription holds of a log that it knows or that the ring still has.
  replayed :
      (ring : ℕ) (b : EventBroadcaster (Payload F)) (req : DashboardSubscription)
      (before : List (Publication (Payload F)))
      → IsLogged ring b (log_from 1 before)
      → length before ≤ req.since_event_id + ring
      → replay (fresh b.per_sub_capacity req) b.ring
        ≡ push_all (fresh b.per_sub_capacity req) (unseen req (log_from 1 before))
  unfolding fresh
  replayed ring b req before i h =
      let log = log_from 1 before in
      let n = length-log_from 1 before in
      let known : 1 + (length log - ring) ≤ suc req.since_event_id = omega (arith, n, h) in
      let s : Subscriber (Payload F) = fresh b.per_sub_capacity req in
      replay-unseen s b.ring
      ∙ ap (push_all s)
          (ap (unseen req) i.kept ∙ unseen-drop req (length log - ring) 1 before known)

  -- The server after the dashboard at `position` has taken all that waits in its queue.
  abbrev pub with_taken : Server F → ℕ → Server F
  with_taken s position = record s {
    bus = record s.bus { subs = on_subscriber (λ t. (drain_now t).0) position s.bus.subs };
  }

  open_dashboard_subs :
      (s : Server F) (req : DashboardSubscription)
      → s.bus.stopped ≡ false
      → let sub = replay (fresh s.bus.per_sub_capacity req) s.bus.ring in
        open_dashboard s req ≡ (
          record s { bus = record s.bus { subs = s.bus.subs ++ sub ∷ [] } },
          fine,
          some (length s.bus.subs),
        )
  unfolding open_dashboard subscribe
  open_dashboard_subs s req h = rw h refl

  taken_stream :
      (s : Server F) (sub : Subscriber (Payload F)) (after : List (Publication (Payload F)))
      → s.bus.stopped ≡ false
      → let server = record s { bus = record s.bus { subs = s.bus.subs ++ sub ∷ [] } } in
        let later = log_from s.bus.next_event_id after in
        (publish_all (with_taken server (length s.bus.subs)).bus after).subs
        ≡ offer_log s.bus.subs later ++ offer_each (drain_now sub).0 later ∷ []
  taken_stream s sub after h =
      let server = record s { bus = record s.bus { subs = s.bus.subs ++ sub ∷ [] } } in
      let later = log_from s.bus.next_event_id after in
      publish_all-subs (with_taken server (length s.bus.subs)).bus after h
      ∙ ap (λ l. offer_log l later) (on_subscriber_snoc (λ t. (drain_now t).0) s.bus.subs sub)
      ∙ offer_log_snoc s.bus.subs (drain_now sub).0 later

  -- A running server and a dashboard that subscribes before the ring has lost an event that it has
  -- not seen, with room in its queue for what is published before and for what is published after:
  -- Subscribe first writes all the events new to it that its filter lets through, in order, and the
  -- live loop then writes those that it lets through of whatever is published after that, each once
  -- and in order.
  pub dashboard_delivers :
      (s : Server F) (req : DashboardSubscription) (ring : ℕ)
      (before after : List (Publication (Payload F)))
      → IsLogged ring s.bus (log_from 1 before)
      → length before ≤ req.since_event_id + ring
      → (s.bus.per_sub_capacity ≡ 0)
        ⊎ ((length before ≤ s.bus.per_sub_capacity) × (length after ≤ s.bus.per_sub_capacity))
      → let opened = open_dashboard s req in
        let old = unseen req (log_from 1 before) in
        let later = log_from (suc (length before)) after in
        (others : List (Subscriber (Payload F))) × (sub : Subscriber (Payload F))
        × (live : Subscriber (Payload F)) × (opened.0.bus.subs ≡ s.bus.subs ++ sub ∷ [])
        × (opened.2 ≡ some (length s.bus.subs))
        × (write_replay (replicate (length old) true) (drain_now sub).1 ≡ (old, true))
        × ((publish_all (with_taken opened.0 (length s.bus.subs)).bus after).subs
            ≡ others ++ live ∷ [])
        × (run_dashboard (length live.queue) live ≡ matching req later)
  unfolding fresh drain_now
  dashboard_delivers s req ring before after i known room =
      let s0 : Subscriber (Payload F) = fresh s.bus.per_sub_capacity req in
      let old = unseen req (log_from 1 before) in
      let later = log_from (suc (length before)) after in
      let sub = replay s0 s.bus.ring in
      let opened = open_dashboard_subs s req i.running in
      let pushed : sub ≡ push_all s0 old = replayed ring s.bus req before i known in
      let id : s.bus.next_event_id ≡ suc (length before) =
        omega (arith, i.counted, length-log_from 1 before) in
      let fits : HasRoom s0 (length old) =
        ground (arith, room, length-log_from 1 before, length-unseen req (log_from 1 before)) in
      let capacity : sub.capacity ≡ s.bus.per_sub_capacity =
        ap (λ t. t.capacity) pushed ∙ push_all_capacity s0 old in
      let more : (sub.capacity ≡ 0) ⊎ (length later ≤ sub.capacity) =
        ground (arith, room, capacity, length-log_from (suc (length before)) after) in
      let up : IsOpen sub =
        subst IsOpen (sym pushed)
          (push_all-IsOpen s0 old (record { held = refl; listed = refl; open_still = refl })) in
      let still : IsOpen (drain_now sub).0 = record {
        held = up.held;
        listed = up.listed;
        open_still = up.open_still;
      } in
      (
        offer_log s.bus.subs later,
        sub,
        offer_each (drain_now sub).0 later,
        ap (λ o. o.0.bus.subs) opened,
        ap (λ o. o.2) opened,
        ap (write_replay (replicate (length old) true))
              (ap (λ t. t.queue) pushed ∙ push_all_queue s0 old fits)
            ∙ write_replay_all old,
        ap (λ o. (publish_all (with_taken o.0 (length s.bus.subs)).bus after).subs) opened
            ∙ taken_stream s sub after i.running
            ∙ ap
                (λ n.
                  offer_log s.bus.subs (log_from n after)
                  ++ offer_each (drain_now sub).0 (log_from n after) ∷ [])
                id,
        live_stream (drain_now sub).0 req later still
            (ap (λ t. t.filter) pushed ∙ push_all_filter s0 old) refl more,
      )
