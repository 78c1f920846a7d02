-- ===== src/Dashboard/EventCache.antt =====
-- event_cache.cpp: the ring of recent frames, the state of each gate and the fan-out to sinks.
use alpr_li_dar_gate_automat.Base.{
  bytes_eq, ℕ, suc, Bool, List, [], ◌∷◌, ◌++◌, Option, none, some, if◌then◌else◌, ltb, ◌==◌, ◌+◌,
  length,
}
pub mod Replay
pub mod Sinks

-- The calls of JsonCpp that `ingest` makes, whose code is not in the repository: `compact` is
-- writeString without indentation, `member` is operator[] for reading, `with_member` for writing.
pub record JsonApi : Type 1 where
  pub Value : Type 0
  pub null : Value
  pub compact : Value → List ℕ
  pub is_member : Value → List ℕ → Bool
  pub member : Value → List ℕ → Value
  pub with_member : Value → List ℕ → Value → Value

-- The keys "telemetry", "event" and "lastEvent".
abbrev pub telemetry_key : List ℕ
telemetry_key = b't' ∷ b'e' ∷ b'l' ∷ b'e' ∷ b'm' ∷ b'e' ∷ b't' ∷ b'r' ∷ b'y' ∷ []

abbrev pub event_key : List ℕ
event_key = b'e' ∷ b'v' ∷ b'e' ∷ b'n' ∷ b't' ∷ []

abbrev pub last_event_key : List ℕ
last_event_key = b'l' ∷ b'a' ∷ b's' ∷ b't' ∷ b'E' ∷ b'v' ∷ b'e' ∷ b'n' ∷ b't' ∷ []

module _ (J : JsonApi) where
  -- An event with what `to_json` maps it to; `telemetry_gate` is the gate of a telemetry payload.
  pub record DashboardEvent : Type 0 where
    pub event_id : ℕ
    pub telemetry_gate : Option (List ℕ)
    pub mapped : J.Value

  -- Of the sinks the identifiers, in the ascending order of the map; of `gates_` the lookup.
  pub record EventCache : Type 0 where
    pub ring_capacity : ℕ
    pub ring : List (List ℕ)
    pub gates : List ℕ → Option J.Value
    pub sinks : List ℕ
    pub next_sink_id : ℕ
    pub last_event_id : ℕ

  unfoldable pub new : ℕ → EventCache
  new ring_capacity = record {
    ring_capacity = ring_capacity;
    ring = [];
    gates = λ gate. none;
    sinks = [];
    next_sink_id = 1;
    last_event_id = 0;
  }

-- `while (ring_.size() > ring_capacity_) ring_.pop_front()`.
unfoldable pub trim : {A : Type 0} → ℕ → List A → List A
trim cap [] = []
trim cap (x ∷ xs) = let rest = trim cap xs in if ltb cap (suc (length xs)) then rest else x ∷ xs

unfoldable pub deliver : List ℕ → List ℕ → List (ℕ × List ℕ)
deliver [] frame = []
deliver (id ∷ ids) frame = (id, frame) ∷ deliver ids frame

unfoldable pub erase_sink : List ℕ → ℕ → List ℕ
erase_sink [] id = []
erase_sink (s ∷ sinks) id =
    let others = erase_sink sinks id in if s == id then others else s ∷ others

module _ {J : JsonApi} where
  unfoldable pub gate_entry : DashboardEvent J → J.Value
  gate_entry ev =
      let g = J.with_member J.null telemetry_key (J.member ev.mapped telemetry_key) in
      if J.is_member ev.mapped event_key
      then J.with_member g last_event_key (J.member ev.mapped event_key)
      else g

  unfoldable pub remember_gate :
      (List ℕ → Option J.Value) → DashboardEvent J → List ℕ → Option J.Value
  remember_gate gates ev gate = elim ev.telemetry_gate [
    | none ↦ gates gate
    | some g ↦ if bytes_eq g gate then some (gate_entry ev) else gates gate
  ]

  unfoldable pub frame : DashboardEvent J → List ℕ
  frame ev = J.compact ev.mapped

  -- The cache after the event, and the frames that the sinks are called with.
  unfoldable pub ingest : EventCache J → DashboardEvent J → EventCache J × List (ℕ × List ℕ)
  ingest c ev = (
    record c {
      last_event_id = if ltb c.last_event_id ev.event_id then ev.event_id else c.last_event_id;
      ring = trim c.ring_capacity (c.ring ++ frame ev ∷ []);
      gates = remember_gate c.gates ev;
    },
    deliver c.sinks (frame ev),
  )

  unfoldable pub add_sink : EventCache J → EventCache J × ℕ
  add_sink c = (
    record c { sinks = c.sinks ++ c.next_sink_id ∷ []; next_sink_id = c.next_sink_id + 1 },
    c.next_sink_id,
  )

  unfoldable pub remove_sink : EventCache J → ℕ → EventCache J
  remove_sink c id = record c { sinks = erase_sink c.sinks id }
