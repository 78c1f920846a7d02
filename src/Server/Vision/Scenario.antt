-- ===== src/Server/Vision/Scenario.antt =====
-- scenario_source.cpp: the parser of a scenario and its replay. nlohmann's JSON is the parameter
-- `JsonApi`; a failure has the path of the offending value and what is wrong with it.
use alpr_li_dar_gate_automat.Base.{
  ℕ, suc, Bool, true, false, not, List, [], ◌∷◌, ◌++◌, Option, none, some, if◌then◌else◌, ltb, ◌||◌,
  ◌%◌, ◌⊎◌, inl, inr, bytes_eq, u32_mod,
}
use alpr_li_dar_gate_automat.Server.Decision.{FloatApi}
use alpr_li_dar_gate_automat.Server.Vision.{
  VehicleClass, PixelBox, OrientedBox, PlateObservation, VehicleObservation,
}

-- The names of the members that are read.
pub data Key : Type 0 where
  text detection_conf ocr_conf box country_hint raw_ocr : Key
  class_key confidence track_id point_count : Key
  x y width height center_x center_y center_z box_length yaw_radians : Key
  offset_ms plates vehicles loop events : Key

pub record JsonApi (F : FloatApi) : Type 1 where
  pub Json : Type 0
  pub parse : List ℕ → Option Json
  pub find : Json → Key → Option Json
  pub is_object : Json → Bool
  pub is_array : Json → Bool
  pub is_string : Json → Bool
  pub is_number : Json → Bool
  pub is_number_integer : Json → Bool
  pub elements : Json → List Json
  pub get_string : Json → List ℕ
  pub get_float : Json → F.Float
  -- An int64: whether it is negative, and its size.
  pub get_int64 : Json → Bool × ℕ
  -- `value` with a default; `none` is the exception at a member of another type.
  pub value_uint : Json → Key → ℕ → Option ℕ
  pub value_float : Json → Key → F.Float → Option F.Float
  pub value_string : Json → Key → List ℕ → Option (List ℕ)
  pub one_float : F.Float

pub data Segment : Type 0 where
  document : Segment
  member : Key → Segment
  at : ℕ → Segment

pub data Complaint : Type 0 where
  malformed not_object not_array not_string not_number not_integer : Complaint
  missing : Key → Complaint
  out_of_range empty_text unknown_class negative_offset bad_loop no_events bad_type : Complaint

pub record Failure : Type 0 where
  pub where_at : List Segment
  pub what : Complaint

abbrev pub fail : {A : Type 0} → List Segment → Complaint → Failure ⊎ A
fail path what = inl (record { where_at = path; what = what })

-- The rest of a parser, unless it has failed.
unfoldable pub and_then : {A B : Type 0} → Failure ⊎ A → (A → Failure ⊎ B) → Failure ⊎ B
and_then (inl e) f = inl e
and_then (inr a) f = f a

abbrev pub is_empty : {A : Type 0} → List A → Bool
is_empty [] = true
is_empty (_ ∷ _) = false

abbrev pub with_type : {A : Type 0} → List Segment → Option A → Failure ⊎ A
with_type path none = fail path bad_type
with_type path (some a) = inr a

-- The vehicle classes by their texts.
abbrev pub class_names : List (List ℕ × VehicleClass)
class_names =
    (b'u' ∷ b'n' ∷ b'k' ∷ b'n' ∷ b'o' ∷ b'w' ∷ b'n' ∷ [], VehicleClass.unknown)
    ∷ (
      b'p' ∷ b'e' ∷ b'd' ∷ b'e' ∷ b's' ∷ b't' ∷ b'r' ∷ b'i' ∷ b'a' ∷ b'n' ∷ [],
      VehicleClass.pedestrian,
    )
    ∷ (b'b' ∷ b'i' ∷ b'c' ∷ b'y' ∷ b'c' ∷ b'l' ∷ b'e' ∷ [], VehicleClass.bicycle)
    ∷ (
      b'm' ∷ b'o' ∷ b't' ∷ b'o' ∷ b'r' ∷ b'c' ∷ b'y' ∷ b'c' ∷ b'l' ∷ b'e' ∷ [],
      VehicleClass.motorcycle,
    )
    ∷ (b's' ∷ b'e' ∷ b'd' ∷ b'a' ∷ b'n' ∷ [], VehicleClass.sedan)
    ∷ (b's' ∷ b'u' ∷ b'v' ∷ [], VehicleClass.suv)
    ∷ (b'p' ∷ b'i' ∷ b'c' ∷ b'k' ∷ b'u' ∷ b'p' ∷ [], VehicleClass.pickup)
    ∷ (b'v' ∷ b'a' ∷ b'n' ∷ [], VehicleClass.van)
    ∷ (b't' ∷ b'r' ∷ b'u' ∷ b'c' ∷ b'k' ∷ [], VehicleClass.truck)
    ∷ []

unfoldable pub class_named : List (List ℕ × VehicleClass) → List ℕ → Option VehicleClass
class_named [] s = none
class_named ((name, c) ∷ names) s =
    let rest = class_named names s in if bytes_eq s name then some c else rest

pub record ScenarioEvent (F : FloatApi) : Type 0 where
  pub offset : ℕ
  pub plates : List (PlateObservation F)
  pub vehicles : List (VehicleObservation F)

module _ {F : FloatApi} (J : JsonApi F) where
  unfoldable pub require : J.Json → Key → List Segment → Failure ⊎ J.Json
  require obj key path = elim (J.find obj key) [ none ↦ fail path (missing key) | some v ↦ inr v ]

  unfoldable pub check_fraction : F.Float → List Segment → Failure ⊎ F.Float
  check_fraction f path =
      if F.lt_float f F.zero_float || F.lt_float J.one_float f
      then fail path out_of_range
      else inr f

  unfoldable pub require_confidence : J.Json → Key → List Segment → Failure ⊎ F.Float
  require_confidence obj key path = and_then (require obj key path) (λ v.
      if not (J.is_number v)
      then fail (path ++ member key ∷ []) not_number
      else check_fraction (J.get_float v) (path ++ member key ∷ []))

  unfoldable pub parse_vehicle_class : J.Json → List Segment → Failure ⊎ VehicleClass
  parse_vehicle_class v path =
      if not (J.is_string v)
      then fail path not_string
      else elim (class_named class_names (J.get_string v)) [
        | none ↦ fail path unknown_class
        | some c ↦ inr c
      ]

  unfoldable pub parse_text : J.Json → List Segment → Failure ⊎ List ℕ
  parse_text v path =
      if not (J.is_string v) || is_empty (J.get_string v)
      then fail path empty_text
      else inr (J.get_string v)

  unfoldable pub parse_pixel_box : Option J.Json → List Segment → Failure ⊎ PixelBox
  parse_pixel_box none path = inr (record { x = 0; y = 0; width = 0; height = 0 })
  parse_pixel_box (some b) path =
      if not (J.is_object b)
      then fail path not_object
      else and_then (with_type path (J.value_uint b x 0)) (λ px.
        and_then (with_type path (J.value_uint b y 0)) (λ py.
          and_then (with_type path (J.value_uint b width 0)) (λ pw.
            and_then (with_type path (J.value_uint b height 0))
              (λ ph. inr (record { x = px; y = py; width = pw; height = ph })))))

  unfoldable pub parse_plate : J.Json → List Segment → Failure ⊎ PlateObservation F
  parse_plate p path =
      if not (J.is_object p)
      then fail path not_object
      else and_then (require p text path) (λ v.
        and_then (parse_text v (path ++ member text ∷ [])) (λ t.
          and_then (require_confidence p detection_conf path) (λ det.
            and_then (require_confidence p ocr_conf path) (λ ocr.
              and_then (parse_pixel_box (J.find p box) (path ++ member box ∷ [])) (λ bx.
                and_then (with_type path (J.value_string p country_hint [])) (λ hint.
                  and_then (with_type path (J.value_string p raw_ocr [])) (λ raw. inr (record {
                    text = t;
                    detection_conf = det;
                    ocr_conf = ocr;
                    box = bx;
                    country_hint = hint;
                    raw_ocr = raw;
                  }))))))))

  abbrev zero_box : OrientedBox F
  zero_box = record {
    center_x = F.zero_float;
    center_y = F.zero_float;
    center_z = F.zero_float;
    length_m = F.zero_float;
    width_m = F.zero_float;
    height_m = F.zero_float;
    yaw_radians = F.zero_float;
  }

  unfoldable pub parse_oriented_box : Option J.Json → List Segment → Failure ⊎ OrientedBox F
  parse_oriented_box none path = inr zero_box
  parse_oriented_box (some b) path =
      let real = λ (key : Key). with_type path (J.value_float b key F.zero_float) in
      if not (J.is_object b)
      then fail path not_object
      else and_then (real center_x) (λ cx. and_then (real center_y) (λ cy.
        and_then (real center_z) (λ cz. and_then (real box_length) (λ l. and_then (real width) (λ w.
          and_then (real height) (λ h. and_then (real yaw_radians) (λ yaw. inr (record {
            center_x = cx;
            center_y = cy;
            center_z = cz;
            length_m = l;
            width_m = w;
            height_m = h;
            yaw_radians = yaw;
          }))))))))

  unfoldable pub parse_vehicle : J.Json → List Segment → Failure ⊎ VehicleObservation F
  parse_vehicle v path =
      if not (J.is_object v)
      then fail path not_object
      else and_then (require v class_key path) (λ c.
        and_then (parse_vehicle_class c (path ++ member class_key ∷ [])) (λ cls.
          and_then (require_confidence v confidence path) (λ conf.
            and_then (parse_oriented_box (J.find v box) (path ++ member box ∷ [])) (λ bx.
              and_then (with_type path (J.value_uint v track_id 0)) (λ track.
                and_then (with_type path (J.value_uint v point_count 0)) (λ points. inr (record {
                  vehicle_class = cls;
                  confidence = conf;
                  box = bx;
                  track_id = track;
                  point_count = points;
                })))))))

  -- The loop over an array, from the index `i`.
  unfoldable pub parse_each :
      {A : Type 0}
      → (J.Json → List Segment → Failure ⊎ A)
      → List Segment
      → ℕ
      → List J.Json
      → Failure ⊎ List A
  parse_each item path i [] = inr []
  parse_each item path i (v ∷ vs) =
      and_then (item v (path ++ at i ∷ []))
        (λ a. and_then (parse_each item path (suc i) vs) (λ as'. inr (a ∷ as')))

  -- A member that may be left out.
  unfoldable pub parse_array :
      {A : Type 0}
      → (J.Json → List Segment → Failure ⊎ A)
      → List Segment
      → Option J.Json
      → Failure ⊎ List A
  parse_array item path none = inr []
  parse_array item path (some v) =
      if not (J.is_array v) then fail path not_array else parse_each item path 0 (J.elements v)

  unfoldable pub parse_offset : J.Json → List Segment → Failure ⊎ ℕ
  parse_offset v path =
      if not (J.is_number_integer v)
      then fail path not_integer
      else if (J.get_int64 v).0
      then fail path negative_offset
      else inr (J.get_int64 v).1

  unfoldable pub parse_event : J.Json → List Segment → Failure ⊎ ScenarioEvent F
  parse_event e path =
      if not (J.is_object e)
      then fail path not_object
      else and_then (require e offset_ms path) (λ v.
        and_then (parse_offset v (path ++ member offset_ms ∷ [])) (λ ms.
          and_then (parse_array parse_plate (path ++ member plates ∷ []) (J.find e plates)) (λ ps.
            and_then (parse_array parse_vehicle (path ++ member vehicles ∷ []) (J.find e vehicles))
              (λ vs. inr (record { offset = ms; plates = ps; vehicles = vs })))))

  -- `static_cast<unsigned>` keeps 32 bits.
  unfoldable pub parse_loops : Option J.Json → Failure ⊎ ℕ
  parse_loops none = inr 1
  parse_loops (some v) =
      if not (J.is_number_integer v) || (J.get_int64 v).0 || ltb (J.get_int64 v).1 1
      then fail (member loop ∷ []) bad_loop
      else inr ((J.get_int64 v).1 % u32_mod)

  unfoldable pub parse_events : J.Json → Failure ⊎ List (ScenarioEvent F)
  parse_events v =
      if not (J.is_array v) || is_empty (J.elements v)
      then fail (member events ∷ []) no_events
      else parse_each parse_event (member events ∷ []) 0 (J.elements v)
