-- ===== src/Server/Decision.antt =====
-- server/fusion: the messages and settings of the decision on one frame. Confidences are floats,
-- which enter as a type with the operations that the engine uses.
use alpr_li_dar_gate_automat.Base.{ℕ, Bool, List, Option}
use alpr_li_dar_gate_automat.Server.Allowlist.{VehicleClass, AllowlistEntry}

-- The operations on `float`; `half` is 0.5 and `minus_one` is -1.
pub record FloatApi : Type 1 where
  pub Float : Type 0
  pub zero_float : Float
  pub half : Float
  pub minus_one : Float
  pub add : Float → Float → Float
  pub mul : Float → Float → Float
  pub lt_float : Float → Float → Bool
  pub le_float : Float → Float → Bool

-- The two queries of the allowlist store that the engine makes, by site and canonical plate.
pub record Store : Type 0 where
  pub lookup : List ℕ → List ℕ → Option AllowlistEntry
  pub is_blocklisted : List ℕ → List ℕ → Bool

pub data AuthVerdict : Type 0 where
  unspecified authorized denied low_confidence manual_review : AuthVerdict

-- `no_reason` is DENY_REASON_NONE.
pub data DenyReason : Type 0 where
  no_reason blocklisted not_on_allowlist outside_window force_close : DenyReason
  low_alpr_conf low_lidar_conf class_mismatch no_plate_found duplicate_entry : DenyReason

-- `no_override` is kNone.
pub data OverrideState : Type 0 where
  no_override kept_open kept_closed : OverrideState

module _ (F : FloatApi) where
  pub record FusionConfig : Type 0 where
    pub alpr_weight : F.Float
    pub lidar_weight : F.Float
    pub min_combined_threshold : F.Float
    pub lidar_missing_confidence : F.Float

  pub record PlateDetection : Type 0 where
    pub plate_text : List ℕ
    pub detection_conf : F.Float
    pub ocr_conf : F.Float

  pub record VehicleDetection : Type 0 where
    pub vehicle_class : VehicleClass
    pub class_conf : F.Float

  -- The frame's fields stand in the request.
  pub record AuthorizeRequest : Type 0 where
    pub gate_id : List ℕ
    pub frame_id : ℕ
    pub site_id : List ℕ
    pub plates : List PlateDetection
    pub vehicles : List VehicleDetection
    pub override_allowlist : Bool

  -- The fields that carry the decision.
  pub record AuthDecision : Type 0 where
    pub gate_id : List ℕ
    pub frame_id : ℕ
    pub verdict : AuthVerdict
    pub deny_reason : DenyReason
    pub matched_plate : List ℕ
    pub matched_class : VehicleClass
    pub combined_conf : F.Float
