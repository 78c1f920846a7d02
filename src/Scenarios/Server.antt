-- ===== src/Scenarios/Server.antt =====
-- Decisions of the server on one frame, with confidences in hundredths.
use alpr_li_dar_gate_automat.Base.{
  bytes_eq, List, [], arith, false, none, some, refl, ltb, leb, ℕ, ◌∷◌, ◌≡◌, ◌↔◌, ◌*◌, ◌+◌, ◌-◌,
  ◌/◌, if◌then◌else◌,
}
use alpr_li_dar_gate_automat.Server.Allowlist.{
  VehicleClass, TimeWindow, AllowlistEntry, LocalTime, window_contains, is_allowed_now,
  class_allowed, member_class, any_window,
}
use alpr_li_dar_gate_automat.Server.Plate.{normalize_plate}
use alpr_li_dar_gate_automat.Server.Decision.{
  FloatApi, Store, kept_closed, authorized, denied, manual_review, FusionConfig, PlateDetection,
  AuthorizeRequest,
}
use alpr_li_dar_gate_automat.Server.Fusion.{
  override_for, pick_best, pick_from, decide_on, judge, matched, check_entry, denied_with,
  decide_at, blend, fold_alpr_confidence, max_float, lidar_side,
}
use alpr_li_dar_gate_automat.Server.Fusion.Best.{IsOrdered}
use alpr_li_dar_gate_automat.Server.Fusion.Review.{NeedsReview, decide_at-manual_review}
use alpr_li_dar_gate_automat.Server.Fusion.Verdicts.{GetsIn, decide_at-IsAuthorized}

-- Hundredths from -1 on: 0 is 100 and 1 is 200.
abbrev pub hundredths : FloatApi
hundredths = record {
  Float = ℕ;
  zero_float = 100;
  half = 150;
  minus_one = 0;
  add = λ a b. a + b - 100;
  mul = λ a b. (a - 100) * (b - 100) / 100 + 100;
  lt_float = ltb;
  le_float = leb;
}

hundredths-IsOrdered : IsOrdered hundredths
hundredths-IsOrdered = record {
  lt_irrefl = λ a. ground arith;
  lt_asym = λ a b h. ground arith;
  not_lt_trans = λ a b c h k. ground arith;
}

abbrev nights : TimeWindow
nights = record { start_minute_of_day = 1_320; end_minute_of_day = 120; days_of_week_mask = 31 }

abbrev resident : AllowlistEntry
resident = record {
  allowed_classes = VehicleClass.sedan ∷ VehicleClass.suv ∷ [];
  time_windows = nights ∷ [];
  valid_from = some 1_000;
  valid_until = none;
}

-- A Monday, 23:30.
abbrev pub monday_night : LocalTime
monday_night = record { hour = 23; min = 30; wday = 1 }

abbrev kda : List ℕ
kda = b'K' ∷ b'D' ∷ b'A' ∷ []

abbrev pub residents : Store
residents = record {
  lookup = λ site plate. if bytes_eq plate kda then some resident else none;
  is_blocklisted = λ site plate. false;
}

abbrev pub settings : FusionConfig hundredths
settings = record {
  alpr_weight = 150;
  lidar_weight = 150;
  min_combined_threshold = 170;
  lidar_missing_confidence = 100;
}

abbrev pub clear_plate : PlateDetection hundredths
clear_plate = record {
  plate_text = b'k' ∷ b'd' ∷ b' ' ∷ b'a' ∷ [];
  detection_conf = 190;
  ocr_conf = 188;
}

abbrev blurred_plate : PlateDetection hundredths
blurred_plate = record { plate_text = b'K' ∷ []; detection_conf = 140; ocr_conf = 120 }

abbrev arrival : AuthorizeRequest hundredths
arrival = record {
  gate_id = b'g' ∷ [];
  frame_id = 7;
  site_id = b's' ∷ [];
  plates = blurred_plate ∷ clear_plate ∷ [];
  vehicles = record { vehicle_class = VehicleClass.sedan; class_conf = 180 } ∷ [];
  override_allowlist = false;
}

decide_at-IsAuthorized_example :
    ((decide_at settings residents [] arrival 2_000 monday_night).verdict ≡ authorized)
    ↔ GetsIn settings residents [] arrival 2_000 monday_night
decide_at-IsAuthorized_example =
    decide_at-IsAuthorized settings residents [] arrival 2_000 monday_night

-- The resident's plate on a truck.
abbrev truck_arrival : AuthorizeRequest hundredths
truck_arrival = record arrival {
  vehicles = record { vehicle_class = VehicleClass.truck; class_conf = 180 } ∷ [];
}

decide_at-manual_review_example :
    ((decide_at settings residents [] truck_arrival 2_000 monday_night).verdict ≡ manual_review)
    ↔ NeedsReview settings residents [] truck_arrival
decide_at-manual_review_example =
    decide_at-manual_review settings residents [] truck_arrival 2_000 monday_night

-- The arrival is authorized, and not under a lockdown.
authorized_arrival :
    ((decide_at settings residents [] arrival 2_000 monday_night).verdict ≡ authorized)
    × ((decide_at settings residents
          ((b'g' ∷ [], kept_closed) ∷ [])
          arrival
          2_000
          monday_night).verdict
        ≡ denied)
unfolding decide_at decide_on judge matched check_entry denied_with pick_best pick_from
    is_allowed_now override_for blend fold_alpr_confidence max_float lidar_side normalize_plate
    class_allowed member_class any_window window_contains
authorized_arrival = (refl, refl)
