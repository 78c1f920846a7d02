-- ===== src/Server/Broadcast/Ring.antt =====
-- The ring against the whole log of what was published.
use alpr_li_dar_gate_automat.Server.Broadcast.{
  last_event_id, new, stamped, DashboardEvent, EventEnvelope, Subscriber, offer_all,
  EventBroadcaster, publish, ring_push,
}
use alpr_li_dar_gate_automat.Base.{
  holds_if, ◌==◌, ap, length-append, subst, sym, ◌∙◌, List, [], arith, drop, false, length, refl,
  suc, zero, ℕ, ◌++◌, ◌+◌, ◌-◌, ◌<◌, ◌∷◌, ◌≡◌, ◌≤◌,
}
use mathlib.Core.List.{append-nil, append_assoc}

-- A call of `publish`.
pub record Publication (A : Type 0) : Type 0 where
  pub now : ℕ
  pub site_id : List ℕ
  pub gate_id : List ℕ
  pub event : DashboardEvent A

abbrev pub newest : {A : Type 0} → ℕ → List A → List A
newest n xs = drop (length xs - n) xs

drop-append :
    {A : Type 0} (k : ℕ) (xs ys : List A) → k ≤ length xs → drop k (xs ++ ys) ≡ drop k xs ++ ys
drop-append zero xs ys h = refl
drop-append (suc k) [] ys h = absurd (omega (arith, h))
drop-append (suc k) (x ∷ xs) ys h = drop-append k xs ys (omega (arith, h))

drop_one : {A : Type 0} (k : ℕ) (xs : List A) → drop 1 (drop k xs) ≡ drop (suc k) xs
drop_one zero xs = refl
drop_one (suc k) [] = refl
drop_one (suc k) (x ∷ xs) = drop_one k xs

drop_nothing : {A : Type 0} (k : ℕ) → [] ≡ drop {A = A} k []
drop_nothing zero = refl
drop_nothing (suc k) = refl

pub length-drop : {A : Type 0} (k : ℕ) (xs : List A) → length (drop k xs) ≡ length xs - k
length-drop zero xs = omega arith
length-drop (suc k) [] = omega arith
length-drop (suc k) (x ∷ xs) = omega (arith, length-drop k xs)

module _ {A : Type 0} where
  newest_longer :
      (cap : ℕ) (log : List (EventEnvelope A)) (env : EventEnvelope A)
      → 0 < cap
      → cap ≤ length log
      → drop 1 (newest cap log) ++ env ∷ [] ≡ newest cap (log ++ env ∷ [])
  newest_longer cap log env h full =
      let one_more : suc (length log - cap) ≡ length (log ++ env ∷ []) - cap =
        omega (arith, full, length-append log (env ∷ [])) in
      ap (λ l. l ++ env ∷ []) (drop_one (length log - cap) log)
      ∙ sym (drop-append (suc (length log - cap)) log (env ∷ []) (omega (arith, full, h)))
      ∙ ap (λ k. drop k (log ++ env ∷ [])) one_more

  newest_shorter :
      (cap : ℕ) (log : List (EventEnvelope A)) (env : EventEnvelope A)
      → length log < cap
      → newest cap log ++ env ∷ [] ≡ newest cap (log ++ env ∷ [])
  newest_shorter cap log env h =
      let none_before : length log - cap ≡ 0 = omega (arith, h) in
      let none_after : 0 ≡ length (log ++ env ∷ []) - cap =
        omega (arith, h, length-append log (env ∷ [])) in
      ap (λ k. drop k log ++ env ∷ []) none_before ∙ ap (λ k. drop k (log ++ env ∷ [])) none_after

  newest_snoc :
      (cap : ℕ) (log : List (EventEnvelope A)) (env : EventEnvelope A)
      → 0 < cap
      → ring_push cap (newest cap log) env ≡ newest cap (log ++ env ∷ [])
  unfolding ring_push
  newest_snoc cap log env h =
      let n = length-drop (length log - cap) log in
      holds_if (λ r. r ++ env ∷ [] ≡ newest cap (log ++ env ∷ [])) (length (newest cap log) == cap)
        (λ full. newest_longer cap log env h (ground (arith, n, full)))
        (λ room. newest_shorter cap log env (ground (arith, n, room)))

  unfoldable pub envelope : ℕ → Publication A → EventEnvelope A
  envelope id p = stamped p.now id p.site_id p.gate_id p.event

  -- What is published, numbered from `id` on.
  abbrev pub log_from : ℕ → List (Publication A) → List (EventEnvelope A)
  log_from id [] = []
  log_from id (p ∷ pubs) = envelope id p ∷ log_from (suc id) pubs

  abbrev pub publish_all : EventBroadcaster A → List (Publication A) → EventBroadcaster A
  publish_all b [] = b
  publish_all b (p ∷ pubs) = publish_all (publish b p.now p.site_id p.gate_id p.event).0 pubs

  abbrev pub offer_log : List (Subscriber A) → List (EventEnvelope A) → List (Subscriber A)
  offer_log subs [] = subs
  offer_log subs (env ∷ log) = offer_log (offer_all env subs) log

  -- The broadcaster runs and has published `log`, of which the ring has the newest.
  pub record IsLogged (cap : ℕ) (b : EventBroadcaster A) (log : List (EventEnvelope A))
      : Type 0 where
    pub sized : b.ring_capacity ≡ cap
    pub kept : b.ring ≡ newest cap log
    pub counted : b.next_event_id ≡ suc (length log)
    pub running : b.stopped ≡ false

  pub publish_running :
      (b : EventBroadcaster A) (p : Publication A)
      → b.stopped ≡ false
      → let env = envelope b.next_event_id p in
        (publish b p.now p.site_id p.gate_id p.event).0 ≡ record b {
          next_event_id = b.next_event_id + 1;
          ring = ring_push b.ring_capacity b.ring env;
          subs = offer_all env b.subs;
        }
  unfolding publish envelope
  publish_running b p h = rw h refl

  pub publish-IsLogged :
      (cap : ℕ) (b : EventBroadcaster A) (log : List (EventEnvelope A)) (p : Publication A)
      → 0 < cap
      → IsLogged cap b log
      → IsLogged cap
          (publish b p.now p.site_id p.gate_id p.event).0
          (log ++ envelope (suc (length log)) p ∷ [])
  publish-IsLogged cap b log p h i =
      let env = envelope (suc (length log)) p in
      subst (λ b'. IsLogged cap b' (log ++ env ∷ [])) (sym (publish_running b p i.running))
        (record {
          sized = i.sized;
          kept =
              ap (λ n. ring_push b.ring_capacity b.ring (envelope n p)) i.counted
              ∙ ap (λ n. ring_push n b.ring env) i.sized
              ∙ ap (λ r. ring_push cap r env) i.kept
              ∙ newest_snoc cap log env h;
          counted = omega (arith, i.counted, length-append log (env ∷ []));
          running = i.running;
        })

  pub publish_all-IsLogged :
      (cap : ℕ) (b : EventBroadcaster A) (log : List (EventEnvelope A))
      (pubs : List (Publication A))
      → 0 < cap
      → IsLogged cap b log
      → IsLogged cap (publish_all b pubs) (log ++ log_from (suc (length log)) pubs)
  publish_all-IsLogged cap b log [] h i = subst (IsLogged cap b) (sym (append-nil log)) i
  publish_all-IsLogged cap b log (p ∷ pubs) h i =
      let env = envelope (suc (length log)) p in
      let b' = (publish b p.now p.site_id p.gate_id p.event).0 in
      let grown : length (log ++ env ∷ []) ≡ suc (length log) =
        omega (arith, length-append log (env ∷ [])) in
      subst (IsLogged cap (publish_all b' pubs))
        (append_assoc log (env ∷ []) (log_from (suc (suc (length log))) pubs))
        (subst
          (λ n. IsLogged cap (publish_all b' pubs) ((log ++ env ∷ []) ++ log_from (suc n) pubs))
          grown
          (publish_all-IsLogged cap b' (log ++ env ∷ []) pubs h (publish-IsLogged cap b log p h i)))

  pub new-IsLogged :
      (ring_capacity per_sub_capacity : ℕ)
      → IsLogged ring_capacity (new ring_capacity per_sub_capacity) []
  unfolding new
  new-IsLogged ring_capacity per_sub_capacity = record {
    sized = refl;
    kept = drop_nothing (0 - ring_capacity);
    counted = refl;
    running = refl;
  }

  pub length-log_from :
      (id : ℕ) (pubs : List (Publication A)) → length (log_from id pubs) ≡ length pubs
  length-log_from id [] = refl
  length-log_from id (p ∷ pubs) = omega (arith, length-log_from (suc id) pubs)

  -- From a new broadcaster, the events are numbered 1, 2, ... in the order of the publications, and
  -- the ring has the newest of them, as many as its capacity, which is not 0.
  pub publish_all_log :
      (ring_capacity per_sub_capacity : ℕ) (pubs : List (Publication A))
      → 0 < ring_capacity
      → let b = publish_all (new ring_capacity per_sub_capacity) pubs in
        let log = log_from 1 pubs in
        (b.ring ≡ drop (length log - ring_capacity) log) × (last_event_id b ≡ length pubs)
  unfolding last_event_id
  publish_all_log ring_capacity per_sub_capacity pubs h =
      let b = new ring_capacity per_sub_capacity in
      let i =
        publish_all-IsLogged ring_capacity b [] pubs h
          (new-IsLogged ring_capacity per_sub_capacity) in
      (i.kept, omega (arith, i.counted, length-log_from 1 pubs))
