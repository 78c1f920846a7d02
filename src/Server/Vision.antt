-- ===== src/Server/Vision.antt =====
-- server/vision: observation.hpp and frame_builder.cpp. The frame has the fields that the server reads.
use alpr_li_dar_gate_automat.Base.{ℕ, List, [], ◌∷◌, map, ◌+◌, ◌%◌, ◌^◌}
use alpr_li_dar_gate_automat.Server.Allowlist
use alpr_li_dar_gate_automat.Server.Decision.{FloatApi, PlateDetection, VehicleDetection}
use alpr_li_dar_gate_automat.Server.Services.{DetectionFrame}
pub mod Scenario
pub mod Replay
pub mod Checked
pub mod Playback

pub data VehicleClass : Type 0 where
  unknown pedestrian bicycle motorcycle sedan suv pickup van truck : VehicleClass

pub record PixelBox : Type 0 where
  pub x : ℕ
  pub y : ℕ
  pub width : ℕ
  pub height : ℕ

module _ (F : FloatApi) where
  pub record OrientedBox : Type 0 where
    pub center_x : F.Float
    pub center_y : F.Float
    pub center_z : F.Float
    pub length_m : F.Float
    pub width_m : F.Float
    pub height_m : F.Float
    pub yaw_radians : F.Float

  pub record PlateObservation : Type 0 where
    pub text : List ℕ
    pub detection_conf : F.Float
    pub ocr_conf : F.Float
    pub box : PixelBox
    pub country_hint : List ℕ
    pub raw_ocr : List ℕ

  pub record VehicleObservation : Type 0 where
    pub vehicle_class : VehicleClass
    pub confidence : F.Float
    pub box : OrientedBox
    pub track_id : ℕ
    pub point_count : ℕ

  pub record ObservationSet : Type 0 where
    pub capture_ts : ℕ
    pub plates : List PlateObservation
    pub vehicles : List VehicleObservation

pub record FrameBuilder : Type 0 where
  pub gate_id : List ℕ
  pub next_frame_id : ℕ  -- uint64

unfoldable pub to_proto_class : VehicleClass → Allowlist.VehicleClass
to_proto_class unknown = Allowlist.unknown
to_proto_class pedestrian = Allowlist.pedestrian
to_proto_class bicycle = Allowlist.bicycle
to_proto_class motorcycle = Allowlist.motorcycle
to_proto_class sedan = Allowlist.sedan
to_proto_class suv = Allowlist.suv
to_proto_class pickup = Allowlist.pickup
to_proto_class van = Allowlist.van
to_proto_class truck = Allowlist.truck

module _ {F : FloatApi} where
  unfoldable pub plate_detection : PlateObservation F → PlateDetection F
  plate_detection p = record {
    plate_text = p.text;
    detection_conf = p.detection_conf;
    ocr_conf = p.ocr_conf;
  }

  unfoldable pub vehicle_detection : VehicleObservation F → VehicleDetection F
  vehicle_detection v = record {
    vehicle_class = to_proto_class v.vehicle_class;
    class_conf = v.confidence;
  }

  unfoldable pub build : FrameBuilder → ObservationSet F → FrameBuilder × DetectionFrame F
  build b obs = (
    record b { next_frame_id = (b.next_frame_id + 1) % 2 ^ 64 },
    record {
      gate_id = b.gate_id;
      frame_id = b.next_frame_id;
      plates = map plate_detection obs.plates;
      vehicles = map vehicle_detection obs.vehicles;
    },
  )
