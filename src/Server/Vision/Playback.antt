-- ===== src/Server/Vision/Playback.antt =====
-- scenario_source.cpp: the source that `from_json` makes, and `next`.
use alpr_li_dar_gate_automat.Base.{
  inr, ℕ, suc, List, [], ◌∷◌, Option, none, some, if◌then◌else◌, not, leb, ◌==◌, ◌+◌, ◌⊎◌, length,
  drop,
}
use alpr_li_dar_gate_automat.Server.Decision.{FloatApi}
use alpr_li_dar_gate_automat.Server.Vision.{ObservationSet}
use alpr_li_dar_gate_automat.Server.Vision.Scenario.{
  JsonApi, ScenarioEvent, Failure, Key, fail, and_then, malformed, not_object, document, loop,
  require, parse_loops, parse_events,
}

-- `epoch` is set from the first event of an iteration to its last. Times are in milliseconds.
pub record ScenarioSource (F : FloatApi) : Type 0 where
  pub events : List (ScenarioEvent F)
  pub loops : ℕ
  pub index : ℕ
  pub iteration : ℕ
  pub epoch : Option ℕ

-- What `next` emits, and the instant until which it slept.
pub record Emission (F : FloatApi) : Type 0 where
  pub due : ℕ
  pub observed : ObservationSet F

module _ {F : FloatApi} where
  unfoldable pub new : List (ScenarioEvent F) → ℕ → ScenarioSource F
  new evs loops = record { events = evs; loops = loops; index = 0; iteration = 0; epoch = none }

  unfoldable pub from_root : (J : JsonApi F) → J.Json → Failure ⊎ ScenarioSource F
  from_root J root =
      if not (J.is_object root)
      then fail (document ∷ []) not_object
      else and_then (parse_loops J (J.find root loop)) (λ loops.
        and_then (require J root Key.events (document ∷ []))
          (λ v. and_then (parse_events J v) (λ evs. inr (new evs loops))))

  unfoldable pub from_json : JsonApi F → List ℕ → Failure ⊎ ScenarioSource F
  from_json J json_text = elim (J.parse json_text) [
    | none ↦ fail (document ∷ []) malformed
    | some root ↦ from_root J root
  ]

  -- At `now` of the steady clock and `wall` of the other. An index out of range is undefined in
  -- the source.
  unfoldable pub next : ℕ → ℕ → ScenarioSource F → ScenarioSource F × Option (Emission F)
  next now wall s =
      let epoch : ℕ = elim s.epoch [ none ↦ now | some e ↦ e ] in
      if leb s.loops s.iteration then (s, none) else elim (drop s.index s.events) [
        | [] ↦ (s, none)
        | ev ∷ _ ↦ (
          (if suc s.index == length s.events
              then record s { index = 0; iteration = s.iteration + 1; epoch = none }
              else record s { index = suc s.index; epoch = some epoch }),
          some (record {
            due = epoch + ev.offset;
            observed = record { capture_ts = wall; plates = ev.plates; vehicles = ev.vehicles };
          }),
        )
      ]
