-- ===== src/Scenarios/Dashboard.antt =====
-- The event cache with a ring of two frames and plain texts for JSON values.
use alpr_li_dar_gate_automat.Base.{
  ℕ, List, [], ◌∷◌, ◌++◌, ◌-◌, ◌≡◌, none, some, true, length, drop, arith,
}
use alpr_li_dar_gate_automat.Dashboard.EventCache.{JsonApi, DashboardEvent, EventCache}
use alpr_li_dar_gate_automat.Dashboard.EventCache.Replay.{after, frames, ring-after}
use alpr_li_dar_gate_automat.Dashboard.EventCache.Sinks.{IsValid}

abbrev texts : JsonApi
texts = record {
  Value = List ℕ;
  null = [];
  compact = λ v. v;
  is_member = λ v key. true;
  member = λ v key. v;
  with_member = λ v key part. v ++ part;
}

abbrev cache : EventCache texts
cache = record {
  ring_capacity = 2;
  ring = [];
  gates = λ gate. none;
  sinks = 1 ∷ 3 ∷ [];
  next_sink_id = 4;
  last_event_id = 0;
}

abbrev telemetry : DashboardEvent texts
telemetry = record { event_id = 7; telemetry_gate = some (b'g' ∷ []); mapped = b'T' ∷ [] }

abbrev fault : DashboardEvent texts
fault = record { event_id = 8; telemetry_gate = none; mapped = b'F' ∷ [] }

abbrev history : List (DashboardEvent texts)
history = fault ∷ telemetry ∷ telemetry ∷ []

cache-IsValid : IsValid cache
cache-IsValid = record { once = λ id. ground arith; given = λ id h. ground (arith, h) }

ring-after_example :
    (after cache history).ring ≡ drop (length (frames history) - 2) (frames history)
ring-after_example = ring-after cache history (omega arith)
