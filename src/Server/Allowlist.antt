-- ===== src/Server/Allowlist.antt =====
-- The rules of an allowlist entry: `is_allowed_now` of allowlist_store.cpp.
use alpr_li_dar_gate_automat.Base.{
  Bool, List, Option, [], false, if◌then◌else◌, leb, ltb, none, not, some, true, ℕ, ◌%◌, ◌&&◌, ◌*◌,
  ◌+◌, ◌/◌, ◌==◌, ◌^◌, ◌||◌, ◌∷◌,
}
-- Seconds at or below 0 mean that a date is not set, so a date is a natural number here.
pub mod Windows

pub data VehicleClass : Type 0 where
  unknown pedestrian bicycle motorcycle sedan suv pickup van truck : VehicleClass

abbrev pub class_eq : VehicleClass → VehicleClass → Bool
class_eq unknown unknown = true
class_eq pedestrian pedestrian = true
class_eq bicycle bicycle = true
class_eq motorcycle motorcycle = true
class_eq sedan sedan = true
class_eq suv suv = true
class_eq pickup pickup = true
class_eq van van = true
class_eq truck truck = true
class_eq _ _ = false

pub record TimeWindow : Type 0 where
  pub start_minute_of_day : ℕ  -- uint32
  pub end_minute_of_day : ℕ  -- uint32
  pub days_of_week_mask : ℕ  -- uint32, bit 0 is Monday

-- The fields of the message that the rules read.
pub record AllowlistEntry : Type 0 where
  pub allowed_classes : List VehicleClass
  pub time_windows : List TimeWindow
  pub valid_from : Option ℕ
  pub valid_until : Option ℕ

-- The fields of `std::tm` that the rules read; `wday` 0 is Sunday.
pub record LocalTime : Type 0 where
  pub hour : ℕ
  pub min : ℕ
  pub wday : ℕ

-- `static_cast<int>` of a 32-bit unsigned number, plus 2 ^ 31: a number from 2 ^ 31 on is negative, so
-- that these compare as the casts do.
abbrev pub as_int : ℕ → ℕ
as_int n = (n + 2_147_483_648) % 4_294_967_296

unfoldable pub window_contains : TimeWindow → ℕ → ℕ → Bool
window_contains w minute iso_dow_bit =
    let start = as_int w.start_minute_of_day in
    let end' = as_int w.end_minute_of_day in
    let now = as_int minute in
    if not (w.days_of_week_mask / 2 ^ iso_dow_bit % 2 == 1)
    then false
    else if leb start end'
    then leb start now && ltb now end'
    else leb start now || ltb now end'

unfoldable pub member_class : List VehicleClass → VehicleClass → Bool
member_class [] cls = false
member_class (c ∷ cs) cls = class_eq c cls || member_class cs cls

unfoldable pub class_allowed : AllowlistEntry → VehicleClass → Bool
class_allowed e cls = elim e.allowed_classes [ [] ↦ true | c ∷ cs ↦ member_class (c ∷ cs) cls ]

unfoldable pub any_window : List TimeWindow → ℕ → ℕ → Bool
any_window [] minute bit = false
any_window (w ∷ ws) minute bit = window_contains w minute bit || any_window ws minute bit

-- `has_valid_from() && seconds() > 0 && now < seconds()`.
abbrev pub too_early : Option ℕ → ℕ → Bool
too_early none now = false
too_early (some from) now = ltb 0 from && ltb now from

abbrev pub too_late : Option ℕ → ℕ → Bool
too_late none now = false
too_late (some until) now = ltb 0 until && leb until now

unfoldable pub is_allowed_now : AllowlistEntry → VehicleClass → ℕ → LocalTime → Bool
is_allowed_now e cls now_unix now_local =
    if too_early e.valid_from now_unix
    then false
    else if too_late e.valid_until now_unix
    then false
    else if not (class_allowed e cls)
    then false
    else elim e.time_windows [
      | [] ↦ true
      | w ∷ ws ↦
          any_window (w ∷ ws) (now_local.hour * 60 + now_local.min) ((now_local.wday + 6) % 7)
    ]
