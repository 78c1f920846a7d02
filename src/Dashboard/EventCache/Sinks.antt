-- ===== src/Dashboard/EventCache/Sinks.antt =====
-- Who hears of an event.
use alpr_li_dar_gate_automat.Base.{
  ℕ, suc, Bool, List, [], ◌∷◌, ◌++◌, if◌then◌else◌, ◌==◌, ◌≡◌, refl, zero, ◌≤◌, ◌∙◌, ap, arith, sym,
  true, false,
}
use alpr_li_dar_gate_automat.Dashboard.EventCache.{
  JsonApi, DashboardEvent, EventCache, deliver, erase_sink, frame, ingest, add_sink, remove_sink,
}

-- How often the identifier occurs.
abbrev pub count : ℕ → List ℕ → ℕ
count id [] = 0
count id (s ∷ sinks) = let rest = count id sinks in if s == id then suc rest else rest

abbrev pub heard : ℕ → List (ℕ × List ℕ) → List (List ℕ)
heard id [] = []
heard id ((s, f) ∷ calls) = let rest = heard id calls in if s == id then f ∷ rest else rest

abbrev pub repeat : ℕ → List ℕ → List (List ℕ)
repeat zero f = []
repeat (suc n) f = f ∷ repeat n f

repeat_step :
    (b : Bool) (n : ℕ) (f : List ℕ)
    → repeat (if b then suc n else n) f ≡ (if b then f ∷ repeat n f else repeat n f)
repeat_step true n f = refl
repeat_step false n f = refl

repeat_once :
    (b : Bool) (n : ℕ) (f : List ℕ)
    → (b ≡ true → n ≡ 0)
    → repeat (if b then suc n else n) f ≡ (if b then f ∷ [] else repeat n f)
repeat_once true n f h = ap (λ k. repeat (suc k) f) (h refl)
repeat_once false n f h = refl

repeat_none :
    (b : Bool) (n : ℕ) (f : List ℕ) → repeat (if b then 0 else n) f ≡ (if b then [] else repeat n f)
repeat_none true n f = refl
repeat_none false n f = refl

heard-deliver : (id : ℕ) (ids f : List ℕ) → heard id (deliver ids f) ≡ repeat (count id ids) f
unfolding deliver
heard-deliver id [] f = refl
heard-deliver id (s ∷ ids) f =
    rw (heard-deliver id ids f) (sym (repeat_step (s == id) (count id ids) f))

count-append :
    (id k : ℕ) (sinks : List ℕ)
    → count id (sinks ++ k ∷ []) ≡ (if k == id then suc (count id sinks) else count id sinks)
count-append id k [] = refl
count-append id k (s ∷ sinks) = ground (arith, count-append id k sinks)

count-erase_sink :
    (id k : ℕ) (sinks : List ℕ)
    → count id (erase_sink sinks k) ≡ (if k == id then 0 else count id sinks)
unfolding erase_sink
count-erase_sink id k [] = ground arith
count-erase_sink id k (s ∷ sinks) = ground (arith, count-erase_sink id k sinks)

pub data Call (J : JsonApi) : Type 0 where
  ingests : DashboardEvent J → Call J
  adds : Call J
  removes : ℕ → Call J

module _ {J : JsonApi} where
  -- A sink is attached once at most, and only under an identifier given out before.
  pub record IsValid (c : EventCache J) : Type 0 where
    pub once : (id : ℕ) → count id c.sinks ≤ 1
    pub given : (id : ℕ) → c.next_sink_id ≤ id → count id c.sinks ≡ 0

  abbrev pub run : EventCache J → List (Call J) → EventCache J
  run c [] = c
  run c (ingests ev ∷ later) = run (ingest c ev).0 later
  run c (adds ∷ later) = run (add_sink c).0 later
  run c (removes id ∷ later) = run (remove_sink c id) later

  add_sink-IsValid : (c : EventCache J) → IsValid c → IsValid (add_sink c).0
  unfolding add_sink
  add_sink-IsValid c v = record {
    once = λ id. ground (arith, count-append id c.next_sink_id c.sinks, v.once id, v.given id);
    given = λ id h. ground (arith, count-append id c.next_sink_id c.sinks, v.given id, h);
  }

  remove_sink-IsValid : (c : EventCache J) (k : ℕ) → IsValid c → IsValid (remove_sink c k)
  unfolding remove_sink
  remove_sink-IsValid c k v = record {
    once = λ id. ground (arith, count-erase_sink id k c.sinks, v.once id);
    given = λ id h. ground (arith, count-erase_sink id k c.sinks, v.given id h);
  }

  ingest-IsValid : (c : EventCache J) (ev : DashboardEvent J) → IsValid c → IsValid (ingest c ev).0
  unfolding ingest
  ingest-IsValid c ev v = record { once = v.once; given = v.given }

  -- Whatever is called on a valid cache leaves it valid: no sink is ever attached twice.
  pub run-sinks-IsValid :
      (c : EventCache J) (calls : List (Call J)) → IsValid c → IsValid (run c calls)
  run-sinks-IsValid c [] v = v
  run-sinks-IsValid c (ingests ev ∷ later) v =
      run-sinks-IsValid (ingest c ev).0 later (ingest-IsValid c ev v)
  run-sinks-IsValid c (adds ∷ later) v =
      run-sinks-IsValid (add_sink c).0 later (add_sink-IsValid c v)
  run-sinks-IsValid c (removes id ∷ later) v =
      run-sinks-IsValid (remove_sink c id) later (remove_sink-IsValid c id v)

  -- Attaching a sink makes it, and it alone, hear the next event, once; removing one makes that one
  -- alone deaf.
  pub heard-ingest :
      (c : EventCache J) (ev : DashboardEvent J) (k id : ℕ)
      → IsValid c
      → (heard id (ingest (add_sink c).0 ev).1
          ≡ (if (add_sink c).1 == id then frame ev ∷ [] else heard id (ingest c ev).1))
        × (heard id (ingest (remove_sink c k) ev).1
            ≡ (if k == id then [] else heard id (ingest c ev).1))
  unfolding ingest add_sink remove_sink
  heard-ingest c ev k id v = (
    heard-deliver id (c.sinks ++ c.next_sink_id ∷ []) (frame ev)
        ∙ ap (λ n. repeat n (frame ev)) (count-append id c.next_sink_id c.sinks)
        ∙ repeat_once (c.next_sink_id == id) (count id c.sinks) (frame ev)
            (ground (arith, v.given id))
        ∙ ap (λ r. if c.next_sink_id == id then frame ev ∷ [] else r)
            (sym (heard-deliver id c.sinks (frame ev))),
    heard-deliver id (erase_sink c.sinks k) (frame ev)
        ∙ ap (λ n. repeat n (frame ev)) (count-erase_sink id k c.sinks)
        ∙ repeat_none (k == id) (count id c.sinks) (frame ev)
        ∙ ap (λ r. if k == id then [] else r) (sym (heard-deliver id c.sinks (frame ev))),
  )
