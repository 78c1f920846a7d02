-- ===== src/Server/Fusion.antt =====
-- server/fusion/src/fusion_engine.cpp: the decision on one frame. The decision's id, time, actor and
-- text are left out.
use alpr_li_dar_gate_automat.Server.Allowlist.{
  is_allowed_now, LocalTime, member_class, VehicleClass, AllowlistEntry,
}
use alpr_li_dar_gate_automat.Server.Decision.{
  low_alpr_conf, low_lidar_conf, no_plate_found, force_close, low_confidence, no_reason,
  not_on_allowlist, manual_review, class_mismatch, outside_window, blocklisted, kept_open,
  kept_closed, DenyReason, authorized, denied, unspecified, AuthVerdict, AuthorizeRequest, Store,
  VehicleDetection, AuthDecision, FusionConfig, PlateDetection, no_override, FloatApi,
  OverrideState,
}
use alpr_li_dar_gate_automat.Base.{
  bytes_eq, Bool, List, Option, [], false, if◌then◌else◌, none, not, some, true, ℕ, ◌&&◌, ◌==◌, ◌∷◌,
}
use alpr_li_dar_gate_automat.Server.Plate.{normalize_plate}
pub mod Verdicts
pub mod Best
pub mod Review

-- The overrides by gate; a map with at most one entry for each key.
abbrev pub Overrides : Type 0
Overrides = List (List ℕ × OverrideState)

unfoldable pub override_for : Overrides → List ℕ → OverrideState
override_for [] gate = no_override
override_for ((g, s) ∷ rest) gate = if bytes_eq g gate then s else override_for rest gate

unfoldable pub erase : Overrides → List ℕ → Overrides
erase [] gate = []
erase ((g, s) ∷ rest) gate =
    let others = erase rest gate in if bytes_eq g gate then others else (g, s) ∷ others

unfoldable pub set_override : Overrides → List ℕ → OverrideState → Overrides
set_override m gate no_override = erase m gate
set_override m gate kept_open = (gate, kept_open) ∷ erase m gate
set_override m gate kept_closed = (gate, kept_closed) ∷ erase m gate

-- The loop of `pick_best_plate` and `pick_best_vehicle`: the best element so far, with its score.
unfoldable pub pick_from :
    (F : FloatApi) {A : Type 0} → (A → F.Float) → Option A → F.Float → List A → Option A
pick_from F score best best_score [] = best
pick_from F score best best_score (x ∷ xs) =
    let better = F.lt_float best_score (score x) in
    pick_from F score (if better then some x else best) (if better then score x else best_score) xs

unfoldable pub pick_best : (F : FloatApi) {A : Type 0} → (A → F.Float) → List A → Option A
pick_best F score xs = pick_from F score none F.minus_one xs

unfoldable pub class_in_allowlist : AllowlistEntry → VehicleClass → Bool
class_in_allowlist e cls = elim e.allowed_classes [ [] ↦ true | c ∷ cs ↦ member_class (c ∷ cs) cls ]

-- `std::max`.
unfoldable pub max_float : (F : FloatApi) → F.Float → F.Float → F.Float
max_float F a b = if F.lt_float a b then b else a

module _ {F : FloatApi} where
  unfoldable pub fold_alpr_confidence : PlateDetection F → F.Float
  fold_alpr_confidence p =
      let det = max_float F p.detection_conf F.zero_float in
      let ocr = max_float F p.ocr_conf F.zero_float in F.add (F.mul F.half det) (F.mul F.half ocr)

  unfoldable pub denied_with : AuthDecision F → AuthVerdict → DenyReason → AuthDecision F
  denied_with out v r = record out { verdict = v; deny_reason = r }

  -- Step 3: the vehicle's class and confidence.
  unfoldable pub lidar_side : FusionConfig F → Option (VehicleDetection F) → VehicleClass × F.Float
  lidar_side cfg none = (VehicleClass.unknown, cfg.lidar_missing_confidence)
  lidar_side cfg (some v) = (v.vehicle_class, v.class_conf)

  -- Step 4.
  unfoldable pub blend : FusionConfig F → F.Float → F.Float → F.Float
  blend cfg alpr lidar = F.add (F.mul cfg.alpr_weight alpr) (F.mul cfg.lidar_weight lidar)

  -- Steps 9 and 10.
  unfoldable pub check_entry :
      AuthDecision F → Option AllowlistEntry → VehicleClass → ℕ → LocalTime → AuthDecision F
  check_entry out none cls now local = denied_with out denied not_on_allowlist
  check_entry out (some e) cls now local =
      if not (is_allowed_now e cls now local)
      then (if not (class_in_allowlist e cls)
          then denied_with out manual_review class_mismatch
          else denied_with out denied outside_window)
      else record out { verdict = authorized }

  -- Steps 5 to 10, on the best plate.
  unfoldable pub judge :
      FusionConfig F
      → Store
      → OverrideState
      → AuthorizeRequest F
      → F.Float
      → F.Float
      → AuthDecision F
      → ℕ
      → LocalTime
      → AuthDecision F
  judge cfg store kept_open req alpr lidar out now local = record out { verdict = authorized }
  judge cfg store _ req alpr lidar out now local =
      if F.lt_float out.combined_conf cfg.min_combined_threshold
      then denied_with out low_confidence
          (if F.le_float alpr lidar then low_alpr_conf else low_lidar_conf)
      else if store.is_blocklisted req.site_id out.matched_plate
      then denied_with out denied blocklisted
      else if req.override_allowlist
      then record out { verdict = authorized }
      else check_entry out (store.lookup req.site_id out.matched_plate) out.matched_class now local

  -- Steps 2 to 4: the fields of the decision that the best plate and vehicle give.
  unfoldable pub matched :
      FusionConfig F → AuthorizeRequest F → AuthDecision F → PlateDetection F → AuthDecision F
  matched cfg req out plate =
      let side = lidar_side cfg (pick_best F (λ v. v.class_conf) req.vehicles) in
      record out {
        matched_plate = normalize_plate plate.plate_text;
        matched_class = side.0;
        combined_conf = blend cfg (fold_alpr_confidence plate) side.1;
      }

  unfoldable pub decide_on :
      FusionConfig F
      → Store
      → OverrideState
      → AuthorizeRequest F
      → Option (PlateDetection F)
      → AuthDecision F
      → ℕ
      → LocalTime
      → AuthDecision F
  decide_on cfg store kept_closed req best out now local = denied_with out denied force_close
  decide_on cfg store _ req none out now local = denied_with out denied no_plate_found
  decide_on cfg store state req (some plate) out now local =
      let side = lidar_side cfg (pick_best F (λ v. v.class_conf) req.vehicles) in
      judge cfg store state req (fold_alpr_confidence plate) side.1 (matched cfg req out plate) now
        local

  unfoldable pub decide_at :
      FusionConfig F → Store → Overrides → AuthorizeRequest F → ℕ → LocalTime → AuthDecision F
  decide_at cfg store overrides req now local =
      decide_on cfg store (override_for overrides req.gate_id) req
        (pick_best F (λ p. p.detection_conf) req.plates)
        (record {
          gate_id = req.gate_id;
          frame_id = req.frame_id;
          verdict = unspecified;
          deny_reason = no_reason;
          matched_plate = [];
          matched_class = VehicleClass.unknown;
          combined_conf = F.zero_float;
        })
        now local
