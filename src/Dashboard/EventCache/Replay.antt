-- ===== src/Dashboard/EventCache/Replay.antt =====
-- What the cache holds after a history of events, newest first.
use alpr_li_dar_gate_automat.Base.{
  bytes_eq, ℕ, suc, List, [], ◌∷◌, ◌++◌, Option, none, some, if◌then◌else◌, ◌-◌, ◌≡◌, ◌≤◌, length,
  drop, arith, refl, ◌∙◌, ap, sym, length-append,
}
use mathlib.Core.List.{append-nil, append_assoc}
use alpr_li_dar_gate_automat.Dashboard.EventCache.{
  JsonApi, DashboardEvent, EventCache, trim, gate_entry, remember_gate, frame, ingest,
}

trim_twice : {A : Type 0} (n : ℕ) (xs ys : List A) → trim n (trim n xs ++ ys) ≡ trim n (xs ++ ys)
unfolding trim
trim_twice n [] ys = refl
trim_twice n (x ∷ xs) ys = ground (arith, trim_twice n xs ys, length-append xs ys)

trim_short : {A : Type 0} (n : ℕ) (xs : List A) → length xs ≤ n → trim n xs ≡ xs
unfolding trim
trim_short n [] h = refl
trim_short n (x ∷ xs) h = ground (arith, h)

drop_more : {A : Type 0} (k m : ℕ) (x : A) (xs : List A) → k ≡ suc m → drop k (x ∷ xs) ≡ drop m xs
drop_more k m x xs e = ap (λ i. drop i (x ∷ xs)) e

drop_none : {A : Type 0} (k : ℕ) (xs : List A) → k ≡ 0 → drop k xs ≡ xs
drop_none k xs e = ap (λ i. drop i xs) e

trim-drop : {A : Type 0} (n : ℕ) (xs : List A) → trim n xs ≡ drop (length xs - n) xs
unfolding trim
trim-drop n [] = ground arith
trim-drop n (x ∷ xs) =
    let more = drop_more (suc (length xs) - n) (length xs - n) x xs in
    let none' = drop_none (suc (length xs) - n) (x ∷ xs) in
    ground (arith, trim-drop n xs, more, none')

module _ {J : JsonApi} where
  abbrev pub after : EventCache J → List (DashboardEvent J) → EventCache J
  after c [] = c
  after c (ev ∷ older) = (ingest (after c older) ev).0

  abbrev pub frames : List (DashboardEvent J) → List (List ℕ)
  frames [] = []
  frames (ev ∷ older) = frames older ++ frame ev ∷ []

  -- The entry of the newest telemetry of the gate, if there is one in the history.
  abbrev pub newest : List ℕ → List (DashboardEvent J) → Option J.Value → Option J.Value
  newest gate [] before = before
  newest gate (ev ∷ older) before = elim ev.telemetry_gate [
    | none ↦ newest gate older before
    | some g ↦ if bytes_eq g gate then some (gate_entry ev) else newest gate older before
  ]

  capacity-after :
      (c : EventCache J) (evs : List (DashboardEvent J))
      → (after c evs).ring_capacity ≡ c.ring_capacity
  unfolding ingest
  capacity-after c [] = refl
  capacity-after c (ev ∷ older) = capacity-after c older

  ring-after-trim :
      (c : EventCache J) (evs : List (DashboardEvent J))
      → length c.ring ≤ c.ring_capacity
      → (after c evs).ring ≡ trim c.ring_capacity (c.ring ++ frames evs)
  unfolding ingest
  ring-after-trim c [] h =
      sym (ap (trim c.ring_capacity) (append-nil c.ring) ∙ trim_short c.ring_capacity c.ring h)
  ring-after-trim c (ev ∷ older) h =
      rw (capacity-after c older, ring-after-trim c older h)
        (trim_twice c.ring_capacity (c.ring ++ frames older) (frame ev ∷ [])
          ∙ ap (trim c.ring_capacity) (append_assoc c.ring (frames older) (frame ev ∷ [])))

  -- A new connection is replayed the newest frames, oldest first, as many as the ring can hold.
  pub ring-after :
      (c : EventCache J) (evs : List (DashboardEvent J))
      → length c.ring ≤ c.ring_capacity
      → let all = c.ring ++ frames evs in
        (after c evs).ring ≡ drop (length all - c.ring_capacity) all
  ring-after c evs h = ring-after-trim c evs h ∙ trim-drop c.ring_capacity (c.ring ++ frames evs)

  -- The state kept of a gate is the entry of its newest telemetry.
  pub gates-after :
      (c : EventCache J) (evs : List (DashboardEvent J)) (gate : List ℕ)
      → (after c evs).gates gate ≡ newest gate evs (c.gates gate)
  unfolding ingest remember_gate
  gates-after c [] gate = refl
  gates-after c (ev ∷ older) gate = ground (arith, gates-after c older gate)
