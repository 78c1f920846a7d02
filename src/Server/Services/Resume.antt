-- ===== src/Server/Services/Resume.antt =====
-- A gate that opens its Control stream, and what is published before and after.
use alpr_li_dar_gate_automat.Base.{
  if_false, Bool-cases, ℕ, suc, false, List, [], ◌∷◌, ◌++◌, some, bytes_eq, length, ◌≡◌, ◌⊎◌, inl,
  inr, refl, ap, sym, ◌∙◌, subst, arith, ◌+◌, ◌≤◌, ◌<◌, length-append,
}
use mathlib.Core.List.{append-nil}
use alpr_li_dar_gate_automat.Rpc.Client.{Telemetry}
use alpr_li_dar_gate_automat.Server.Broadcast.{
  offer_all, stamped, EventEnvelope, Subscriber, fresh, is_empty, publish_payload, publish_as,
  subscribe, telemetry,
}
use alpr_li_dar_gate_automat.Server.Broadcast.Ring.{
  publish_running, Publication, envelope, log_from, publish_all, offer_log, IsLogged,
  publish_all-IsLogged, length-log_from,
}
use alpr_li_dar_gate_automat.Server.Broadcast.Stream.{push_all, matching, subscribe_resumes}
use alpr_li_dar_gate_automat.Server.Decision.{FloatApi}
use alpr_li_dar_gate_automat.Server.Services.{
  Envelope, Server, Clock, Payload, reported, publish_telemetry,
}
use alpr_li_dar_gate_automat.Server.Services.Control.{
  command_in, control_filter, open_control, identify,
}
use alpr_li_dar_gate_automat.Server.Services.Delivery.{
  orders_for, orders_in, length-matching, orders_in-append, orders_in-matching, unseen_all,
  push_all_queue, run_writer-orders_in, run_writer, HasRoom, orders_for-append,
}

module _ {F : FloatApi} where
  -- The telemetry that identifies the gate, as a publication.
  unfoldable pub announcement : Server F → Clock → Telemetry → Publication (Payload F)
  announcement s now t = record {
    now = now.unix;
    site_id = s.default_site_id;
    gate_id = t.gate_id;
    event = record { event_id = 0; event_ts = 0; kind = telemetry; content = reported t };
  }

  orders_for-announcement :
      (s : Server F) (now : Clock) (t : Telemetry) (id : ℕ)
      → orders_for t.gate_id (log_from id (announcement s now t ∷ [])) ≡ []
  unfolding orders_for announcement envelope stamped command_in
  orders_for-announcement s now t id = elim (Bool-cases (bytes_eq t.gate_id t.gate_id)) [
    | inl h ↦ rw h refl
    | inr h ↦ rw h refl
  ]

  -- The subscription of a Control stream, as what was published makes it.
  abbrev pub subscriber_of :
      ℕ
      → List ℕ
      → List (EventEnvelope (Payload F))
      → List (EventEnvelope (Payload F))
      → Subscriber (Payload F)
  subscriber_of capacity gate old later =
      push_all (fresh capacity (control_filter gate))
        (matching (control_filter gate) old ++ matching (control_filter gate) later)

  subscriber_of-orders_for :
      (capacity : ℕ) (gate : List ℕ) (old later : List (EventEnvelope (Payload F)))
      → (capacity ≡ 0) ⊎ (length old + length later ≤ capacity)
      → let sub = subscriber_of capacity gate old later in
        run_writer (length sub.queue) sub ≡ orders_for gate old ++ orders_for gate later
  unfolding fresh
  subscriber_of-orders_for capacity gate old later room =
      let f = control_filter gate in
      let s0 = fresh capacity f in
      let sub = subscriber_of capacity gate old later in
      let fits : HasRoom s0 (length (matching f old ++ matching f later)) = ground (
        arith,
        room,
        length-append (matching f old) (matching f later),
        length-matching gate old,
        length-matching gate later,
      ) in
      run_writer-orders_in sub sub.queue
      ∙ ap orders_in (push_all_queue s0 (matching f old ++ matching f later) fits)
      ∙ orders_in-append (matching f old) (matching f later)
      ∙ rw (orders_in-matching gate old, orders_in-matching gate later) refl

  identify_delivers :
      (s : Server F) (now : Clock) (gate : List ℕ) (ring : ℕ)
      (before after : List (Publication (Payload F)))
      → IsLogged ring s.bus (log_from 1 before)
      → length before ≤ ring
      → (publish_all (identify s now gate).0.bus after).subs
        ≡ offer_log s.bus.subs (log_from (suc (length before)) after)
          ++ subscriber_of s.bus.per_sub_capacity gate
              (log_from 1 before)
              (log_from (suc (length before)) after)
            ∷ []
  unfolding identify subscribe control_filter
  identify_delivers s now gate ring before after i fits =
      let f = control_filter gate in
      let later = log_from (suc (length before)) after in
      let same : (identify s now gate).0.bus ≡ (subscribe s.bus f).0 = ground (arith, i.running) in
      ap (λ b. (publish_all b after).subs) same
      ∙ subscribe_resumes ring s.bus f before after i (omega (arith, fits))
      ∙ ap
          (λ es.
            offer_log s.bus.subs later
            ++ push_all (fresh s.bus.per_sub_capacity f) (es ++ matching f later) ∷ [])
          (unseen_all gate 0 before)

  log_from_snoc :
      (id n : ℕ) (pubs : List (Publication (Payload F))) (p : Publication (Payload F))
      → n ≡ id + length pubs
      → log_from id (pubs ++ p ∷ []) ≡ log_from id pubs ++ log_from n (p ∷ [])
  log_from_snoc id n [] p e =
      let same : id ≡ n = omega (arith, e) in ap (λ m. log_from m (p ∷ [])) same
  log_from_snoc id n (q ∷ pubs) p e =
      ap (λ l. envelope id q ∷ l) (log_from_snoc (suc id) n pubs p (omega (arith, e)))

  length-offer_all :
      (env : EventEnvelope (Payload F)) (subs : List (Subscriber (Payload F)))
      → length (offer_all env subs) ≡ length subs
  unfolding offer_all
  length-offer_all env [] = refl
  length-offer_all env (s ∷ subs) = ap (λ n. suc n) (length-offer_all env subs)

  length-offer_log :
      (subs : List (Subscriber (Payload F))) (log : List (EventEnvelope (Payload F)))
      → length (offer_log subs log) ≡ length subs
  length-offer_log subs [] = refl
  length-offer_log subs (env ∷ log) =
      length-offer_log (offer_all env subs) log ∙ length-offer_all env subs

  announced :
      (s : Server F) (now : Clock) (t : Telemetry) (ring : ℕ)
      (before : List (Publication (Payload F)))
      → IsLogged ring s.bus (log_from 1 before)
      → 0 < ring
      → let told = publish_telemetry s now s.default_site_id t in
        IsLogged ring told.bus (log_from 1 (before ++ announcement s now t ∷ []))
        × (told.bus.per_sub_capacity ≡ s.bus.per_sub_capacity)
  unfolding publish_telemetry publish_payload publish_as announcement
  announced s now t ring before i pos =
      let p = announcement s now t in
      let told = publish_telemetry s now s.default_site_id t in
      let n = length-log_from 1 before in
      let snoc = log_from_snoc 1 (suc (length (log_from 1 before))) before p (omega (arith, n)) in
      (
        subst (IsLogged ring told.bus) (sym snoc)
            (publish_all-IsLogged ring s.bus (log_from 1 before) (p ∷ []) pos i),
        ap (λ b. b.per_sub_capacity) (publish_running s.bus p i.running),
      )

  orders_for_announced :
      (s : Server F) (now : Clock) (t : Telemetry) (before : List (Publication (Payload F)))
      → orders_for t.gate_id (log_from 1 (before ++ announcement s now t ∷ []))
        ≡ orders_for t.gate_id (log_from 1 before)
  orders_for_announced s now t before =
      let p = announcement s now t in
      let n = suc (length before) in
      let same : n ≡ 1 + length before = omega arith in
      ap (orders_for t.gate_id) (log_from_snoc 1 n before p same)
      ∙ orders_for-append t.gate_id (log_from 1 before) (log_from n (p ∷ []))
      ∙ ap (λ os. orders_for t.gate_id (log_from 1 before) ++ os)
          (orders_for-announcement s now t n)
      ∙ append-nil _

  identify_sub :
      (s : Server F) (now : Clock) (gate : List ℕ)
      → s.bus.stopped ≡ false
      → (identify s now gate).2 ≡ some (record { gate_id = gate; sub = length s.bus.subs })
  unfolding identify subscribe
  identify_sub s now gate running = ground (arith, running)

  -- A running server whose ring holds all it published and has room, and a gate that opens its
  -- Control stream: whatever is published after, the rounds of its writer thread send the commands
  -- for this gate and no others, in order, those published before the stream was opened too.
  pub control_delivers :
      (s : Server F) (now : Clock) (t : Telemetry) (ring : ℕ)
      (before after : List (Publication (Payload F)))
      → IsLogged ring s.bus (log_from 1 before)
      → length before < ring
      → is_empty t.gate_id ≡ false
      → (s.bus.per_sub_capacity ≡ 0) ⊎ (suc (length before) + length after ≤ s.bus.per_sub_capacity)
      → let opened = open_control s now (some (Envelope.telemetry t)) in
        (others : List (Subscriber (Payload F))) × (sub : Subscriber (Payload F)) × ((publish_all
            opened.0.bus after).subs
          ≡ others ++ sub ∷ [])
        × (opened.2 ≡ some (record { gate_id = t.gate_id; sub = length others }))
        × (run_writer (length sub.queue) sub
            ≡ orders_for t.gate_id (log_from 1 before)
              ++ orders_for t.gate_id (log_from (suc (suc (length before))) after))
  unfolding open_control
  control_delivers s now t ring before after i fits named room =
      let p = announcement s now t in
      let told = publish_telemetry s now s.default_site_id t in
      let all_before = before ++ p ∷ [] in
      let count = length-append before (p ∷ []) in
      let next_id : suc (length all_before) ≡ suc (suc (length before)) = omega (arith, count) in
      let (logged, same_capacity) = announced s now t ring before i (omega (arith, fits)) in
      let old = log_from 1 all_before in
      let later = log_from (suc (length all_before)) after in
      let sub = subscriber_of told.bus.per_sub_capacity t.gate_id old later in
      let others = offer_log told.bus.subs later in
      let opened : open_control s now (some (Envelope.telemetry t)) ≡ identify told now t.gate_id =
        if_false _ _ named in
      let capacity_left : (told.bus.per_sub_capacity ≡ 0)
          ⊎ (length old + length later ≤ told.bus.per_sub_capacity) =
        elim room [
          | inl z ↦ inl (same_capacity ∙ z)
          | inr le ↦ inr (
              omega (
                arith,
                le,
                same_capacity,
                count,
                length-log_from 1 all_before,
                length-log_from (suc (length all_before)) after,
              ))
        ] in
      let sent =
        subscriber_of-orders_for told.bus.per_sub_capacity t.gate_id old later capacity_left in
      (
        others,
        sub,
        ap (λ o. (publish_all o.0.bus after).subs) opened
            ∙ identify_delivers told now t.gate_id ring all_before after logged
                (omega (arith, fits, count)),
        ap (λ o. o.2) opened
            ∙ identify_sub told now t.gate_id logged.running
            ∙ ap (λ n. some (record { gate_id = t.gate_id; sub = n }))
                (sym (length-offer_log told.bus.subs later)),
        sent
            ∙ ap (λ os. os ++ orders_for t.gate_id later) (orders_for_announced s now t before)
            ∙ ap
                (λ n.
                  orders_for t.gate_id (log_from 1 before)
                  ++ orders_for t.gate_id (log_from n after))
                next_id,
      )
