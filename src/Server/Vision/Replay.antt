-- ===== src/Server/Vision/Replay.antt =====
-- What a source emits.
use alpr_li_dar_gate_automat.Server.Vision.{VehicleObservation, PlateObservation}
use alpr_li_dar_gate_automat.Base.{
  map, ℕ, zero, suc, true, false, List, [], ◌∷◌, ◌++◌, none, some, leb, ◌==◌, ◌≡◌, refl, ap, ◌∙◌,
  sym, arith, ◌+◌, ◌<◌, length, drop, take, Bool-cases, inl, inr,
}
use alpr_li_dar_gate_automat.Server.Decision.{FloatApi}
use alpr_li_dar_gate_automat.Server.Vision.Scenario.{ScenarioEvent}
use alpr_li_dar_gate_automat.Server.Vision.Playback.{ScenarioSource, next, new, Emission}

abbrev pub repeated : {A : Type 0} → ℕ → List A → List A
repeated zero xs = []
repeated (suc n) xs = xs ++ repeated n xs

-- What is left of an iteration from the index `i` on, and the `k - 1` iterations behind it.
abbrev left_over : {A : Type 0} → ℕ → ℕ → List A → List A
left_over zero i xs = []
left_over (suc k) i xs = drop i xs ++ repeated k xs

left_over_start : {A : Type 0} (k : ℕ) (xs : List A) → left_over k 0 xs ≡ repeated k xs
left_over_start zero xs = refl
left_over_start (suc k) xs = refl

drop_cons :
    {A : Type 0} (i : ℕ) (xs : List A) → i < length xs → (x : A) × (drop i xs ≡ x ∷ drop (suc i) xs)
drop_cons i [] h = absurd (omega (arith, h))
drop_cons zero (x ∷ xs) h = (x, refl)
drop_cons (suc i) (x ∷ xs) h = drop_cons i xs (omega (arith, h))

drop_all : {A : Type 0} (n : ℕ) (xs : List A) → n ≡ length xs → drop n xs ≡ []
drop_all zero [] h = refl
drop_all (suc n) [] h = refl
drop_all zero (x ∷ xs) h = absurd (omega (arith, h))
drop_all (suc n) (x ∷ xs) h = drop_all n xs (omega (arith, h))

-- The plates and vehicles of an event or of an emission.
abbrev pub Content : FloatApi → Type 0
Content F = List (PlateObservation F) × List (VehicleObservation F)

module _ {F : FloatApi} where
  abbrev pub content : ScenarioEvent F → Content F
  content ev = (ev.plates, ev.vehicles)

  abbrev pub shown : Emission F → Content F
  shown e = (e.observed.plates, e.observed.vehicles)

  -- What calls of `next` emit, at these times of both clocks.
  unfoldable pub play : List (ℕ × ℕ) → ScenarioSource F → List (Content F)
  play [] s = []
  play (t ∷ times) s =
      let r = next t.0 t.1 s in
      let rest = play times r.0 in elim r.1 [ none ↦ rest | some e ↦ shown e ∷ rest ]

  play_ended :
      (times : List (ℕ × ℕ)) (s : ScenarioSource F)
      → leb s.loops s.iteration ≡ true
      → play times s ≡ []
  unfolding play next
  play_ended [] s h = refl
  play_ended (t ∷ times) s h = ground (arith, h, play_ended times s h)

  play_step :
      (t : ℕ × ℕ) (times : List (ℕ × ℕ)) (s s' : ScenarioSource F) (em : Emission F)
      → next t.0 t.1 s ≡ (s', some em)
      → play (t ∷ times) s ≡ shown em ∷ play times s'
  unfolding play
  play_step t times s s' em h = ground (arith, h)

  play-left_over :
      (times : List (ℕ × ℕ)) (k : ℕ) (s : ScenarioSource F)
      → s.index < length s.events
      → s.loops ≡ k + s.iteration
      → play times s ≡ take (length times) (map content (left_over k s.index s.events))
  unfolding play next
  play-left_over [] k s inside sum = refl
  play-left_over (t ∷ times) zero s inside sum = play_ended (t ∷ times) s (ground (arith, sum))
  play-left_over (t ∷ times) (suc k) s inside sum =
      let on : leb s.loops s.iteration ≡ false = ground (arith, sum) in
      let (ev, e) = drop_cons s.index s.events inside in
      let clock : ℕ = elim s.epoch [ none ↦ t.0 | some c ↦ c ] in
      let em : Emission F = record {
        due = clock + ev.offset;
        observed = record { capture_ts = t.1; plates = ev.plates; vehicles = ev.vehicles };
      } in
      elim (Bool-cases (suc s.index == length s.events)) [
        | inl last ↦
            let s' : ScenarioSource F = record s {
              index = 0;
              iteration = s.iteration + 1;
              epoch = none;
            } in
            let rest = play-left_over times k s' (omega (arith, inside)) (omega (arith, sum)) in
            let end = drop_all (suc s.index) s.events (ground (arith, last)) in
            play_step t times s s' em (ground (arith, on, e, last))
            ∙ ap (λ l. content ev ∷ l)
                (rest ∙ ap (λ l. take (length times) (map content l)) (left_over_start k s.events))
            ∙ ap (λ l. take (suc (length times)) (map content (l ++ repeated k s.events)))
                (sym (e ∙ ap (λ l. ev ∷ l) end))
        | inr more ↦
            let s' : ScenarioSource F = record s { index = suc s.index; epoch = some clock } in
            let rest =
              play-left_over times (suc k) s' (ground (arith, inside, more)) (omega (arith, sum)) in
            play_step t times s s' em (ground (arith, on, e, more))
            ∙ ap (λ l. content ev ∷ l) rest
            ∙ ap (λ l. take (suc (length times)) (map content (l ++ repeated k s.events))) (sym e)
      ]

  -- From the start, a source with events emits them in order, over and over as often as it loops, one
  -- at each call of `next` at whatever times, and then nothing.
  pub play-new :
      (times : List (ℕ × ℕ)) (evs : List (ScenarioEvent F)) (loops : ℕ)
      → 0 < length evs
      → play times (new evs loops) ≡ take (length times) (map content (repeated loops evs))
  unfolding new
  play-new times evs loops some_event =
      play-left_over times loops (new evs loops) some_event (omega arith)
      ∙ ap (λ l. take (length times) (map content l)) (left_over_start loops evs)
