-- ===== src/Server/Services/Delivery.antt =====
-- What the writer thread of a Control stream sends.
use alpr_li_dar_gate_automat.Base.{
  ℕ, zero, suc, Bool, true, false, List, [], ◌∷◌, ◌++◌, none, some, if◌then◌else◌, bytes_eq,
  Option-cases, not, ◌||◌, length, ◌≡◌, ◌⊎◌, inl, inr, refl, ap, sym, ◌∙◌, arith, ◌+◌, ◌≤◌, ltb,
  length-append,
}
use mathlib.Core.List.{append-nil, append_assoc}
use alpr_li_dar_gate_automat.Rpc.Client.{GateCommand}
use alpr_li_dar_gate_automat.Server.Broadcast.{
  stamped, EventEnvelope, DashboardEvent, Subscriber, Kind, filter_matches, kind_matches, contains,
  push_locked, next, decision, command, telemetry, fault, ota, ack, no_payload,
}
use alpr_li_dar_gate_automat.Server.Broadcast.Ring.{Publication, envelope, log_from}
use alpr_li_dar_gate_automat.Server.Broadcast.Stream.{push_all, matching, unseen}
use alpr_li_dar_gate_automat.Server.Decision.{FloatApi}
use alpr_li_dar_gate_automat.Server.Services.{
  Payload, CommandBody, ordered, decided, reported, failed, answered,
}
use alpr_li_dar_gate_automat.Server.Services.Control.{
  command_in, control_filter, writer_round, Round, writes,
}

abbrev written : Round (GateCommand CommandBody) → List (GateCommand CommandBody)
written (writes c) = c ∷ []
written _ = []

module _ {F : FloatApi} where
  -- The commands in a queue, and those of a log that are for a gate.
  unfoldable pub orders_in : List (DashboardEvent (Payload F)) → List (GateCommand CommandBody)
  orders_in [] = []
  orders_in (e ∷ es) =
      let rest = orders_in es in
      elim (command_in e.kind e.content) [ none ↦ rest | some c ↦ c ∷ rest ]

  unfoldable pub orders_for :
      List ℕ → List (EventEnvelope (Payload F)) → List (GateCommand CommandBody)
  orders_for gate [] = []
  orders_for gate (env ∷ log) =
      let rest = orders_for gate log in
      if bytes_eq gate env.gate_id
      then (elim (command_in env.event.kind env.event.content) [ none ↦ rest | some c ↦ c ∷ rest ])
      else rest

  pub orders_in-append :
      (es ds : List (DashboardEvent (Payload F)))
      → orders_in (es ++ ds) ≡ orders_in es ++ orders_in ds
  unfolding orders_in
  orders_in-append [] ds = refl
  orders_in-append (e ∷ es) ds = elim (Option-cases (command_in e.kind e.content)) [
    | inl n ↦ ground (arith, n, orders_in-append es ds)
    | inr (c, e') ↦ ground (arith, e', orders_in-append es ds)
  ]

  pub orders_for-append :
      (gate : List ℕ) (log later : List (EventEnvelope (Payload F)))
      → orders_for gate (log ++ later) ≡ orders_for gate log ++ orders_for gate later
  unfolding orders_for
  orders_for-append gate [] later = refl
  orders_for-append gate (env ∷ log) later =
      elim (Option-cases (command_in env.event.kind env.event.content)) [
        | inl n ↦ ground (arith, n, orders_for-append gate log later)
        | inr (c, e) ↦ ground (arith, e, orders_for-append gate log later)
      ]

  -- The filter of a gate lets its commands through, and no other command.
  matching_step :
      (gate : List ℕ) (same : Bool) (id ts : ℕ) (kind : Kind) (a : Payload F)
      (es : List (DashboardEvent (Payload F))) (orders : List (GateCommand CommandBody))
      → orders_in es ≡ orders
      → let e : DashboardEvent (Payload F) = record {
        event_id = id;
        event_ts = ts;
        kind = kind;
        content = a;
      } in
        orders_in (
          if (if not (same || false) then false else kind_matches (control_filter gate) kind)
          then e ∷ es
          else es)
        ≡ (if same
            then (elim (command_in kind a) [ none ↦ orders | some c ↦ c ∷ orders ])
            else orders)
  unfolding orders_in control_filter kind_matches command_in
  matching_step gate false id ts kind a es orders h = h
  matching_step gate true id ts decision a es orders h = h
  matching_step gate true id ts telemetry a es orders h = h
  matching_step gate true id ts fault a es orders h = h
  matching_step gate true id ts ota a es orders h = h
  matching_step gate true id ts ack a es orders h = h
  matching_step gate true id ts no_payload a es orders h = h
  matching_step gate true id ts command (ordered c) es orders h = ap (λ r. c ∷ r) h
  matching_step gate true id ts command (decided d a) es orders h = h
  matching_step gate true id ts command (reported t) es orders h = h
  matching_step gate true id ts command (failed f) es orders h = h
  matching_step gate true id ts command (answered a) es orders h = h

  pub orders_in-matching :
      (gate : List ℕ) (log : List (EventEnvelope (Payload F)))
      → orders_in (matching (control_filter gate) log) ≡ orders_for gate log
  unfolding matching orders_for orders_in control_filter filter_matches contains
  orders_in-matching gate [] = refl
  orders_in-matching gate (env ∷ log) =
      matching_step gate (bytes_eq gate env.gate_id) env.event.event_id env.event.event_ts
        env.event.kind env.event.content _ _ (orders_in-matching gate log)

  -- The identifiers of a log start at 1.
  pub unseen_all :
      (gate : List ℕ) (id : ℕ) (pubs : List (Publication (Payload F)))
      → unseen (control_filter gate) (log_from (suc id) pubs)
        ≡ matching (control_filter gate) (log_from (suc id) pubs)
  unfolding unseen matching control_filter envelope stamped
  unseen_all gate id [] = refl
  unseen_all gate id (p ∷ pubs) =
      let new_to_it : ltb 0 (suc id) ≡ true = ground arith in
      ground (arith, new_to_it, unseen_all gate (suc id) pubs)

  pub length-matching :
      (gate : List ℕ) (log : List (EventEnvelope (Payload F)))
      → length (matching (control_filter gate) log) ≤ length log
  unfolding matching
  length-matching gate [] = omega arith
  length-matching gate (env ∷ log) = ground (arith, length-matching gate log)

  -- A queue with room for `n` more.
  abbrev pub HasRoom : Subscriber (Payload F) → ℕ → Type 0
  HasRoom s n = (s.capacity ≡ 0) ⊎ (length s.queue + n ≤ s.capacity)

  pub push_all_queue :
      (s : Subscriber (Payload F)) (es : List (DashboardEvent (Payload F)))
      → HasRoom s (length es)
      → (push_all s es).queue ≡ s.queue ++ es
  unfolding push_locked
  push_all_queue s [] room = sym (append-nil s.queue)
  push_all_queue s (e ∷ es) room =
      let s' = record s { queue = s.queue ++ e ∷ [] } in
      let grown = length-append s.queue (e ∷ []) in
      let pushed : push_locked s e ≡ s' = ground (arith, room) in
      let more : HasRoom s' (length es) = ground (arith, room, grown) in
      ap (λ t. (push_all t es).queue) pushed
      ∙ push_all_queue s' es more
      ∙ append_assoc s.queue (e ∷ []) es

  -- `n` rounds of the writer thread on a stream that takes what is written.
  unfoldable pub run_writer : ℕ → Subscriber (Payload F) → List (GateCommand CommandBody)
  run_writer zero s = []
  run_writer (suc n) s = let r = writer_round false false true s in written r.1 ++ run_writer n r.0

  pub run_writer-orders_in :
      (s : Subscriber (Payload F)) (es : List (DashboardEvent (Payload F)))
      → run_writer (length es) (record s { queue = es }) ≡ orders_in es
  unfolding run_writer writer_round next orders_in
  run_writer-orders_in s [] = refl
  run_writer-orders_in s (e ∷ es) = elim (Option-cases (command_in e.kind e.content)) [
    | inl n ↦ rw (n, run_writer-orders_in s es) (ground (arith, n))
    | inr (c, e') ↦ rw (e', run_writer-orders_in s es) (ground (arith, e'))
  ]
