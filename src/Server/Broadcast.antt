-- ===== src/Server/Broadcast.antt =====
-- server/dash/src/event_broadcaster.cpp: the ring of recent events and a queue for each subscriber.
use alpr_li_dar_gate_automat.Machine.Types.{none}
use alpr_li_dar_gate_automat.Base.{
  Bool, List, Option, [], bytes_eq, drop, false, if◌then◌else◌, leb, length, ltb, none, not, some,
  suc, true, zero, ℕ, ◌&&◌, ◌++◌, ◌+◌, ◌-◌, ◌==◌, ◌||◌, ◌∷◌,
}
-- Calls appear one after another: a publish and the pushes it makes are one step. `pop_front` of an
-- empty ring, which only a capacity of 0 reaches, is undefined in the source.
pub mod Order
pub mod Queue
pub mod History
pub mod Ring
pub mod Stream

-- The payload of an event by its kind; `no_payload` is PAYLOAD_NOT_SET.
pub data Kind : Type 0 where
  decision telemetry fault ota command ack no_payload : Kind

-- `content` is the payload itself, which is only passed on.
pub record DashboardEvent (A : Type 0) : Type 0 where
  pub event_id : ℕ
  pub event_ts : ℕ  -- seconds; 0 is unset
  pub kind : Kind
  pub content : A

pub record EventEnvelope (A : Type 0) : Type 0 where
  pub site_id : List ℕ
  pub gate_id : List ℕ
  pub event : DashboardEvent A

pub record DashboardSubscription : Type 0 where
  pub site_id : List ℕ
  pub gate_ids : List (List ℕ)
  pub include_decisions : Bool
  pub include_telemetry : Bool
  pub include_faults : Bool
  pub include_ota : Bool
  pub since_event_id : ℕ

abbrev pub is_empty : List ℕ → Bool
is_empty [] = true
is_empty (_ ∷ _) = false

unfoldable pub contains : List (List ℕ) → List ℕ → Bool
contains [] gate = false
contains (g ∷ gates) gate = bytes_eq g gate || contains gates gate

unfoldable pub kind_matches : DashboardSubscription → Kind → Bool
kind_matches f decision = f.include_decisions
kind_matches f telemetry = f.include_telemetry
kind_matches f fault = f.include_faults
kind_matches f ota = f.include_ota
kind_matches f command = true
kind_matches f ack = true
kind_matches f no_payload = false

unfoldable pub filter_matches : DashboardSubscription → List ℕ → List ℕ → Kind → Bool
filter_matches f site_id gate_id kind =
    let any_kind_set =
      f.include_decisions || f.include_telemetry || f.include_faults || f.include_ota in
    if not (is_empty f.site_id) && not (bytes_eq f.site_id site_id)
    then false
    else if (elim f.gate_ids [ [] ↦ false | g ∷ gs ↦ not (contains (g ∷ gs) gate_id) ])
    then false
    else if not any_kind_set
    then true
    else kind_matches f kind

-- `Subscription::Impl`. `registered` says that the broadcaster's list has its weak pointer, and
-- `alive` that its owner still holds it.
pub record Subscriber (A : Type 0) : Type 0 where
  pub queue : List (DashboardEvent A)
  pub filter : DashboardSubscription
  pub capacity : ℕ
  pub dropped : ℕ
  pub closed : Bool
  pub registered : Bool
  pub alive : Bool

-- `subs` are all that were ever made; a subscription is its position.
pub record EventBroadcaster (A : Type 0) : Type 0 where
  pub ring : List (EventEnvelope A)
  pub ring_capacity : ℕ
  pub per_sub_capacity : ℕ
  pub next_event_id : ℕ
  pub subs : List (Subscriber A)
  pub stopped : Bool

module _ {A : Type 0} where
  unfoldable pub new : ℕ → ℕ → EventBroadcaster A
  new ring_capacity per_sub_capacity = record {
    ring = [];
    ring_capacity = ring_capacity;
    per_sub_capacity = per_sub_capacity;
    next_event_id = 1;
    subs = [];
    stopped = false;
  }

  -- A capacity of 0 is unbounded.
  unfoldable pub push_locked : Subscriber A → DashboardEvent A → Subscriber A
  push_locked s e =
      if ltb 0 s.capacity && leb s.capacity (length s.queue)
      then record s { queue = drop 1 s.queue ++ e ∷ []; dropped = s.dropped + 1 }
      else record s { queue = s.queue ++ e ∷ [] }

  -- What `next` does once its wait is over.
  unfoldable pub next : Subscriber A → Subscriber A × Option (DashboardEvent A)
  next s = elim s.queue [ [] ↦ (s, none) | e ∷ rest ↦ (record s { queue = rest }, some e) ]

  unfoldable pub drain_now : Subscriber A → Subscriber A × List (DashboardEvent A)
  drain_now s = (record s { queue = [] }, s.queue)

  unfoldable pub close : Subscriber A → Subscriber A
  close s = record s { closed = true }

  -- The destructor.
  unfoldable pub release : Subscriber A → Subscriber A
  release s = record s { closed = true; alive = false }

  abbrev pub matches : DashboardSubscription → EventEnvelope A → Bool
  matches f env = filter_matches f env.site_id env.gate_id env.event.kind

  -- A dead weak pointer is dropped; a live one is a target.
  unfoldable pub offer : EventEnvelope A → Subscriber A → Subscriber A
  offer env s =
      if not s.alive
      then record s { registered = false }
      else if not s.registered || s.closed || not (matches s.filter env)
      then s
      else push_locked s env.event

  unfoldable pub offer_all : EventEnvelope A → List (Subscriber A) → List (Subscriber A)
  offer_all env [] = []
  offer_all env (s ∷ subs) = offer env s ∷ offer_all env subs

  unfoldable pub ring_push : ℕ → List (EventEnvelope A) → EventEnvelope A → List (EventEnvelope A)
  ring_push cap ring env = (if length ring == cap then drop 1 ring else ring) ++ env ∷ []

  unfoldable pub stamped : ℕ → ℕ → List ℕ → List ℕ → DashboardEvent A → EventEnvelope A
  stamped now id site_id gate_id e = record {
    site_id = site_id;
    gate_id = gate_id;
    event = record e { event_id = id; event_ts = if e.event_ts == 0 then now else e.event_ts };
  }

  -- `now` is what `std::time` says.
  unfoldable pub publish :
      EventBroadcaster A → ℕ → List ℕ → List ℕ → DashboardEvent A → EventBroadcaster A × ℕ
  publish b now site_id gate_id e =
      let env = stamped now b.next_event_id site_id gate_id e in
      if b.stopped then (b, 0) else (
        record b {
          next_event_id = b.next_event_id + 1;
          ring = ring_push b.ring_capacity b.ring env;
          subs = offer_all env b.subs;
        },
        b.next_event_id,
      )

  -- An event as the builders make it: no identifier and no time yet.
  unfoldable pub publish_as :
      Kind → EventBroadcaster A → ℕ → List ℕ → List ℕ → A → EventBroadcaster A × ℕ
  publish_as kind b now site_id gate_id a =
      publish b now site_id gate_id
        (record { event_id = 0; event_ts = 0; kind = kind; content = a })

  -- `publish_decision`, `publish_telemetry`, `publish_fault` and `publish_command` route by the
  -- gate that the payload names; `publish_ota` and `publish_ack` are told the gate.
  unfoldable pub publish_payload :
      (A → List ℕ) → Kind → EventBroadcaster A → ℕ → List ℕ → A → EventBroadcaster A × ℕ
  publish_payload gate_of kind b now site_id a = publish_as kind b now site_id (gate_of a) a

  -- The replay: the events of the ring that are new to the subscriber and match.
  unfoldable pub replay : Subscriber A → List (EventEnvelope A) → Subscriber A
  replay s [] = s
  replay s (env ∷ ring) =
      replay
        (if leb env.event.event_id s.filter.since_event_id
          then s
          else if not (matches s.filter env)
          then s
          else push_locked s env.event)
        ring

  unfoldable pub fresh : ℕ → DashboardSubscription → Subscriber A
  fresh capacity filter = record {
    queue = [];
    filter = filter;
    capacity = capacity;
    dropped = 0;
    closed = false;
    registered = true;
    alive = true;
  }

  unfoldable pub subscribe :
      EventBroadcaster A → DashboardSubscription → EventBroadcaster A × Option (Subscriber A)
  subscribe b filter =
      let s = replay (fresh b.per_sub_capacity filter) b.ring in
      if b.stopped then (b, none) else (record b { subs = b.subs ++ s ∷ [] }, some s)

  unfoldable pub shut : List (Subscriber A) → List (Subscriber A)
  shut [] = []
  shut (s ∷ subs) =
      record s { closed = s.closed || (s.registered && s.alive); registered = false } ∷ shut subs

  unfoldable pub stop : EventBroadcaster A → EventBroadcaster A
  stop b = if b.stopped then b else record b { stopped = true; subs = shut b.subs }

  unfoldable pub subscriber_count : List (Subscriber A) → ℕ
  subscriber_count [] = 0
  subscriber_count (s ∷ subs) = (if s.registered && s.alive then 1 else 0) + subscriber_count subs

  unfoldable pub last_event_id : EventBroadcaster A → ℕ
  last_event_id b = b.next_event_id - 1

  -- What an owner does with the subscription at a position.
  unfoldable pub on_subscriber :
      (Subscriber A → Subscriber A) → ℕ → List (Subscriber A) → List (Subscriber A)
  on_subscriber f i [] = []
  on_subscriber f zero (s ∷ subs) = f s ∷ subs
  on_subscriber f (suc i) (s ∷ subs) = s ∷ on_subscriber f i subs
