-- ===== src/Server/Vision/Checked.antt =====
-- A scenario that is accepted, against its schema.
use alpr_li_dar_gate_automat.Base.{
  Bool, ap, subst, ℕ, suc, true, false, not, List, [], ◌∷◌, Option, none, some, if◌then◌else◌, ◌≡◌,
  ◌≢◌, refl, arith, ◌<◌, All, ◌⊎◌, inl, inr, length, Option-cases,
}
use alpr_li_dar_gate_automat.Server.Decision.{FloatApi}
use alpr_li_dar_gate_automat.Server.Vision.{PlateObservation, VehicleObservation}
use alpr_li_dar_gate_automat.Server.Vision.Scenario.{
  JsonApi, Key, is_empty, ScenarioEvent, Failure, Segment, and_then, check_fraction,
  require_confidence, parse_text, parse_plate, parse_vehicle, parse_each, parse_array, parse_event,
  parse_events,
}
use alpr_li_dar_gate_automat.Server.Vision.Playback.{ScenarioSource, from_json, from_root, new}

and_then_inverse :
    {A B : Type 0} (r : Failure ⊎ A) (f : A → Failure ⊎ B) (b : B)
    → and_then r f ≡ inr b
    → (a : A) × (r ≡ inr a) × (f a ≡ inr b)
unfolding and_then
and_then_inverse (inl e) f b h = ground (arith, h)
and_then_inverse (inr a) f b h = (a, refl, h)

is_empty_lem : {A : Type 0} (xs : List A) → is_empty xs ≡ false → 0 < length xs
is_empty_lem [] h = ground (arith, h)
is_empty_lem (x ∷ xs) h = omega arith

guard_inverse :
    {A : Type 0} (b : Bool) (e : Failure) (r : Failure ⊎ A) (a : A)
    → (if b then inl e else r) ≡ inr a
    → r ≡ inr a
guard_inverse true e r a h = ground (arith, h)
guard_inverse false e r a h = h

module _ {F : FloatApi} (J : JsonApi F) where
  -- Neither below 0 nor above 1.
  abbrev pub IsFraction : F.Float → Type 0
  IsFraction f = (F.lt_float f F.zero_float ≡ false) × (F.lt_float J.one_float f ≡ false)

  pub record IsPlate (p : PlateObservation F) : Type 0 where
    pub named : p.text ≢ []
    pub detected : IsFraction p.detection_conf
    pub read : IsFraction p.ocr_conf

  abbrev pub IsVehicle : VehicleObservation F → Type 0
  IsVehicle v = IsFraction v.confidence

  abbrev pub IsEvent : ScenarioEvent F → Type 0
  IsEvent ev = All IsPlate ev.plates × All IsVehicle ev.vehicles

  require_confidence-IsFraction :
      (obj : J.Json) (key : Key) (path : List Segment) (f : F.Float)
      → require_confidence J obj key path ≡ inr f
      → IsFraction f
  unfolding require_confidence check_fraction
  require_confidence-IsFraction obj key path f h =
      let (v, _, r) = and_then_inverse _ _ f h in (ground (arith, r), ground (arith, r))

  parse_text-named :
      (v : J.Json) (path : List Segment) (t : List ℕ) → parse_text J v path ≡ inr t → t ≢ []
  unfolding parse_text
  parse_text-named v path t h empty = ground (arith, h, empty)

  parse_plate-IsPlate :
      (v : J.Json) (path : List Segment) (p : PlateObservation F)
      → parse_plate J v path ≡ inr p
      → IsPlate p
  unfolding parse_plate
  parse_plate-IsPlate v path p h =
      let (_, _, h1) = and_then_inverse _ _ p (guard_inverse (not (J.is_object v)) _ _ p h) in
      let (t, text_of, h2) = and_then_inverse _ _ p h1 in
      let (det, det_of, h3) = and_then_inverse _ _ p h2 in
      let (ocr, ocr_of, h4) = and_then_inverse _ _ p h3 in
      let (_, _, h5) = and_then_inverse _ _ p h4 in
      let (_, _, h6) = and_then_inverse _ _ p h5 in
      let (_, _, made) = and_then_inverse _ _ p h6 in
      let (same_text, same_det, same_ocr) : (t ≡ p.text)
          × (det ≡ p.detection_conf)
          × (ocr ≡ p.ocr_conf) =
        (ground (arith, made), ground (arith, made), ground (arith, made)) in
      record {
        named = subst (λ u. u ≢ []) same_text (parse_text-named _ _ t text_of);
        detected =
            subst IsFraction same_det
              (require_confidence-IsFraction v Key.detection_conf path det det_of);
        read =
            subst IsFraction same_ocr
              (require_confidence-IsFraction v Key.ocr_conf path ocr ocr_of);
      }

  parse_vehicle-IsVehicle :
      (v : J.Json) (path : List Segment) (c : VehicleObservation F)
      → parse_vehicle J v path ≡ inr c
      → IsVehicle c
  unfolding parse_vehicle
  parse_vehicle-IsVehicle v path c h =
      let (_, _, h1) = and_then_inverse _ _ c (guard_inverse (not (J.is_object v)) _ _ c h) in
      let (_, _, h2) = and_then_inverse _ _ c h1 in
      let (conf, conf_of, h3) = and_then_inverse _ _ c h2 in
      let (_, _, h4) = and_then_inverse _ _ c h3 in
      let (_, _, h5) = and_then_inverse _ _ c h4 in
      let (_, _, made) = and_then_inverse _ _ c h5 in
      let same : conf ≡ c.confidence = ground (arith, made) in
      subst IsFraction same (require_confidence-IsFraction v Key.confidence path conf conf_of)

  parse_each-All :
      {A : Type 0} (P : A → Type 0) (item : J.Json → List Segment → Failure ⊎ A)
      (path : List Segment) (i : ℕ) (vs : List J.Json) (as' : List A)
      → ((v : J.Json) (w : List Segment) (a : A) → item v w ≡ inr a → P a)
      → parse_each J item path i vs ≡ inr as'
      → All P as' × (length as' ≡ length vs)
  unfolding parse_each
  parse_each-All P item path i [] [] good h = (tt, refl)
  parse_each-All P item path i [] (a ∷ as') good h = ground (arith, h)
  parse_each-All P item path i (v ∷ vs) as' good h =
      let (a, a_of, h1) = and_then_inverse _ _ as' h in
      let (rest, rest_of, made) = and_then_inverse _ _ as' h1 in
      let (all, count) = parse_each-All P item path (suc i) vs rest good rest_of in
      let same : a ∷ rest ≡ as' = ground (arith, made) in
      subst (λ l. All P l × (length l ≡ suc (length vs))) same
        ((good v _ a a_of, all), ap (λ n. suc n) count)

  parse_array-All :
      {A : Type 0} (P : A → Type 0) (item : J.Json → List Segment → Failure ⊎ A)
      (path : List Segment) (o : Option J.Json) (as' : List A)
      → ((v : J.Json) (w : List Segment) (a : A) → item v w ≡ inr a → P a)
      → parse_array J item path o ≡ inr as'
      → All P as'
  unfolding parse_array
  parse_array-All P item path none [] good h = tt
  parse_array-All P item path none (a ∷ as') good h = ground (arith, h)
  parse_array-All P item path (some v) as' good h =
      (parse_each-All P item path 0 (J.elements v) as' good (guard_inverse _ _ _ as' h)).0

  parse_event-IsEvent :
      (v : J.Json) (path : List Segment) (ev : ScenarioEvent F)
      → parse_event J v path ≡ inr ev
      → IsEvent ev
  unfolding parse_event
  parse_event-IsEvent v path ev h =
      let (_, _, h1) = and_then_inverse _ _ ev (guard_inverse (not (J.is_object v)) _ _ ev h) in
      let (_, _, h2) = and_then_inverse _ _ ev h1 in
      let (ps, ps_of, h3) = and_then_inverse _ _ ev h2 in
      let (vs, vs_of, made) = and_then_inverse _ _ ev h3 in
      let (same_ps, same_vs) : (ps ≡ ev.plates) × (vs ≡ ev.vehicles) =
        (ground (arith, made), ground (arith, made)) in
      (
        subst (All IsPlate) same_ps
            (parse_array-All IsPlate (parse_plate J) _ _ ps parse_plate-IsPlate ps_of),
        subst (All IsVehicle) same_vs
            (parse_array-All IsVehicle (parse_vehicle J) _ _ vs parse_vehicle-IsVehicle vs_of),
      )

  parse_events-IsEvent :
      (v : J.Json) (evs : List (ScenarioEvent F))
      → parse_events J v ≡ inr evs
      → (0 < length evs) × All IsEvent evs
  unfolding parse_events
  parse_events-IsEvent v evs h =
      let each = guard_inverse _ _ _ evs h in
      let (all, count) =
        parse_each-All IsEvent (parse_event J) _ 0 (J.elements v) evs parse_event-IsEvent each in
      let filled : is_empty (J.elements v) ≡ false = ground (arith, h) in
      let some_event : 0 < length (J.elements v) = is_empty_lem (J.elements v) filled in
      (omega (arith, count, some_event), all)

  -- A scenario that is accepted has an event, all its confidences are neither below 0 nor above 1, all
  -- its plates have a text, and its source stands at the first event of the first iteration.
  pub from_json-IsEvent :
      (json_text : List ℕ) (s : ScenarioSource F)
      → from_json J json_text ≡ inr s
      → (0 < length s.events) × All IsEvent s.events × (s ≡ new s.events s.loops)
  unfolding from_json from_root new
  from_json-IsEvent json_text s h = elim (Option-cases (J.parse json_text)) [
    | inl n ↦ ground (arith, h, n)
    | inr (root, e) ↦
        let rooted : from_root J root ≡ inr s = ground (arith, h, e) in
        let (loops, _, h1) =
          and_then_inverse _ _ s (guard_inverse (not (J.is_object root)) _ _ s rooted) in
        let (v, _, h2) = and_then_inverse _ _ s h1 in
        let (evs, evs_of, made) = and_then_inverse _ _ s h2 in
        let same : new evs loops ≡ s = ground (arith, made) in
        let (some_event, all) = parse_events-IsEvent v evs evs_of in
        subst (λ q. (0 < length q.events) × All IsEvent q.events × (q ≡ new q.events q.loops)) same
          (some_event, all, refl)
  ]
