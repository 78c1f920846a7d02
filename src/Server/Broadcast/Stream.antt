-- ===== src/Server/Broadcast/Stream.antt =====
-- A subscriber that comes back against everything that was published.
use alpr_li_dar_gate_automat.Server.Broadcast.Ring.{
  length-log_from, publish_running, IsLogged, log_from, publish_all, Publication, envelope,
  offer_log,
}
use alpr_li_dar_gate_automat.Base.{
  ◌-◌, drop, suc, sym, zero, ℕ, ◌+◌, ◌≤◌, ap, ◌++◌, ◌∙◌, List, [], arith, false, holds_if,
  if◌then◌else◌, leb, length, ltb, refl, true, ◌&&◌, ◌∷◌, ◌≡◌,
}
use alpr_li_dar_gate_automat.Server.Broadcast.{
  publish, stamped, EventBroadcaster, fresh, subscribe, offer_all, matches, DashboardEvent,
  EventEnvelope, DashboardSubscription, Subscriber, offer, push_locked, replay,
}

module _ {A : Type 0} where
  abbrev pub push_all : Subscriber A → List (DashboardEvent A) → Subscriber A
  push_all s [] = s
  push_all s (e ∷ es) = push_all (push_locked s e) es

  -- The events of a log that a filter lets through, and those of them that are new to it.
  unfoldable pub matching : DashboardSubscription → List (EventEnvelope A) → List (DashboardEvent A)
  matching f [] = []
  matching f (env ∷ log) = if matches f env then env.event ∷ matching f log else matching f log

  unfoldable pub unseen : DashboardSubscription → List (EventEnvelope A) → List (DashboardEvent A)
  unseen f [] = []
  unseen f (env ∷ log) =
      if ltb f.since_event_id env.event.event_id && matches f env
      then env.event ∷ unseen f log
      else unseen f log

  push_filter : (s : Subscriber A) (e : DashboardEvent A) → (push_locked s e).filter ≡ s.filter
  unfolding push_locked
  push_filter s e = ground arith

  pub replay-unseen :
      (s : Subscriber A) (ring : List (EventEnvelope A))
      → replay s ring ≡ push_all s (unseen s.filter ring)
  unfolding replay unseen
  replay-unseen s [] = refl
  replay-unseen s (env ∷ ring) =
      let s' = push_locked s env.event in
      let later : replay s' ring ≡ push_all s' (unseen s.filter ring) =
        replay-unseen s' ring ∙ ap (λ f. push_all s' (unseen f ring)) (push_filter s env.event) in
      ground (arith, replay-unseen s ring, later)

  -- A subscriber that is connected.
  pub record IsOpen (s : Subscriber A) : Type 0 where
    pub held : s.alive ≡ true
    pub listed : s.registered ≡ true
    pub open_still : s.closed ≡ false

  push-IsOpen : (s : Subscriber A) (e : DashboardEvent A) → IsOpen s → IsOpen (push_locked s e)
  unfolding push_locked
  push-IsOpen s e i =
      holds_if IsOpen (ltb 0 s.capacity && leb s.capacity (length s.queue))
        (λ _. record { held = i.held; listed = i.listed; open_still = i.open_still })
        (λ _. record { held = i.held; listed = i.listed; open_still = i.open_still })

  pub push_all-IsOpen :
      (s : Subscriber A) (es : List (DashboardEvent A)) → IsOpen s → IsOpen (push_all s es)
  push_all-IsOpen s [] i = i
  push_all-IsOpen s (e ∷ es) i = push_all-IsOpen (push_locked s e) es (push-IsOpen s e i)

  abbrev pub offer_each : Subscriber A → List (EventEnvelope A) → Subscriber A
  offer_each s [] = s
  offer_each s (env ∷ log) = offer_each (offer env s) log

  pub offer_each-matching :
      (s : Subscriber A) (log : List (EventEnvelope A))
      → IsOpen s
      → offer_each s log ≡ push_all s (matching s.filter log)
  unfolding offer matching
  offer_each-matching s [] i = refl
  offer_each-matching s (env ∷ log) i =
      let s' = push_locked s env.event in
      let later : offer_each s' log ≡ push_all s' (matching s.filter log) =
        offer_each-matching s' log (push-IsOpen s env.event i)
        ∙ ap (λ f. push_all s' (matching f log)) (push_filter s env.event) in
      ground (arith, offer_each-matching s log i, later)

  offer_all_snoc :
      (env : EventEnvelope A) (subs : List (Subscriber A)) (s : Subscriber A)
      → offer_all env (subs ++ s ∷ []) ≡ offer_all env subs ++ offer env s ∷ []
  unfolding offer_all
  offer_all_snoc env [] s = refl
  offer_all_snoc env (s' ∷ subs) s = ap (λ l. offer env s' ∷ l) (offer_all_snoc env subs s)

  pub offer_log_snoc :
      (subs : List (Subscriber A)) (s : Subscriber A) (log : List (EventEnvelope A))
      → offer_log (subs ++ s ∷ []) log ≡ offer_log subs log ++ offer_each s log ∷ []
  offer_log_snoc subs s [] = refl
  offer_log_snoc subs s (env ∷ log) =
      ap (λ l. offer_log l log) (offer_all_snoc env subs s)
      ∙ offer_log_snoc (offer_all env subs) (offer env s) log

  pub publish_all-subs :
      (b : EventBroadcaster A) (pubs : List (Publication A))
      → b.stopped ≡ false
      → (publish_all b pubs).subs ≡ offer_log b.subs (log_from b.next_event_id pubs)
  publish_all-subs b [] h = refl
  publish_all-subs b (p ∷ pubs) h =
      let b' = (publish b p.now p.site_id p.gate_id p.event).0 in
      let e = publish_running b p h in
      let id : b'.next_event_id ≡ suc b.next_event_id =
        ap (λ b''. b''.next_event_id) e ∙ omega arith in
      publish_all-subs b' pubs (ap (λ b''. b''.stopped) e ∙ h)
      ∙ ap (λ l. offer_log l (log_from b'.next_event_id pubs)) (ap (λ b''. b''.subs) e)
      ∙ ap (λ n. offer_log (offer_all (envelope b.next_event_id p) b.subs) (log_from n pubs)) id

  unseen_old :
      (f : DashboardSubscription) (env : EventEnvelope A) (log : List (EventEnvelope A))
      → env.event.event_id ≤ f.since_event_id
      → unseen f (env ∷ log) ≡ unseen f log
  unfolding unseen
  unseen_old f env log h = ground (arith, h)

  -- What the ring has lost is what the subscriber has seen.
  pub unseen-drop :
      (f : DashboardSubscription) (k id : ℕ) (pubs : List (Publication A))
      → id + k ≤ suc f.since_event_id
      → unseen f (drop k (log_from id pubs)) ≡ unseen f (log_from id pubs)
  unfolding envelope stamped
  unseen-drop f zero id pubs h = refl
  unseen-drop f (suc k) id [] h = refl
  unseen-drop f (suc k) id (p ∷ pubs) h =
      unseen-drop f k (suc id) pubs (omega (arith, h))
      ∙ sym (unseen_old f (envelope id p) (log_from (suc id) pubs) (omega (arith, h)))

  pub subscribed :
      (b : EventBroadcaster A) (f : DashboardSubscription)
      → b.stopped ≡ false
      → (subscribe b f).0
        ≡ record b { subs = b.subs ++ replay (fresh b.per_sub_capacity f) b.ring ∷ [] }
  unfolding subscribe
  subscribed b f h = rw h refl

  pub push_all_filter :
      (s : Subscriber A) (es : List (DashboardEvent A)) → (push_all s es).filter ≡ s.filter
  push_all_filter s [] = refl
  push_all_filter s (e ∷ es) = push_all_filter (push_locked s e) es ∙ push_filter s e

  push_all_append :
      (s : Subscriber A) (es later : List (DashboardEvent A))
      → push_all (push_all s es) later ≡ push_all s (es ++ later)
  push_all_append s [] later = refl
  push_all_append s (e ∷ es) later = push_all_append (push_locked s e) es later

  -- A new subscriber against a ring and what is offered after it.
  fresh_stream :
      (capacity : ℕ) (f : DashboardSubscription) (ring later : List (EventEnvelope A))
      → offer_each (replay (fresh capacity f) ring) later
        ≡ push_all (fresh capacity f) (unseen f ring ++ matching f later)
  unfolding fresh
  fresh_stream capacity f ring later =
      let s = fresh capacity f in
      let old = unseen f ring in
      ap (λ s'. offer_each s' later) (replay-unseen s ring)
      ∙ offer_each-matching (push_all s old) later
          (push_all-IsOpen s old (record { held = refl; listed = refl; open_still = refl }))
      ∙ ap (λ f'. push_all (push_all s old) (matching f' later)) (push_all_filter s old)
      ∙ push_all_append s old (matching f later)

  -- A dashboard that reconnects to a running broadcaster before the ring has lost an event that it
  -- has not seen: its subscription is pushed all the events published before that are new to it and
  -- that its filter lets through, each once and in order, then those that it lets through of
  -- whatever is published after; the other subscriptions are offered the same as without it.
  pub subscribe_resumes :
      (cap : ℕ) (b : EventBroadcaster A) (f : DashboardSubscription)
      (before after : List (Publication A))
      → IsLogged cap b (log_from 1 before)
      → length before ≤ f.since_event_id + cap
      → let later = log_from (suc (length before)) after in
        (publish_all (subscribe b f).0 after).subs
        ≡ offer_log b.subs later
          ++ push_all
              (fresh b.per_sub_capacity f)
              (unseen f (log_from 1 before) ++ matching f later)
            ∷ []
  subscribe_resumes cap b f before after i h =
      let s : Subscriber A = fresh b.per_sub_capacity f in
      let n = length-log_from 1 before in
      let id : b.next_event_id ≡ suc (length before) = omega (arith, i.counted, n) in
      let known : 1 + (length (log_from 1 before) - cap) ≤ suc f.since_event_id =
        omega (arith, n, h) in
      ap (λ b'. (publish_all b' after).subs) (subscribed b f i.running)
      ∙ publish_all-subs (record b { subs = b.subs ++ replay s b.ring ∷ [] }) after i.running
      ∙ ap (λ m. offer_log (b.subs ++ replay s b.ring ∷ []) (log_from m after)) id
      ∙ offer_log_snoc b.subs (replay s b.ring) (log_from (suc (length before)) after)
      ∙ ap (λ s'. offer_log b.subs (log_from (suc (length before)) after) ++ s' ∷ [])
          (fresh_stream b.per_sub_capacity f b.ring (log_from (suc (length before)) after)
            ∙ ap (λ es. push_all s (es ++ matching f (log_from (suc (length before)) after)))
                (ap (unseen f) i.kept
                  ∙ unseen-drop f (length (log_from 1 before) - cap) 1 before known))
