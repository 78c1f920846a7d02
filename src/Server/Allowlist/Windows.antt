-- ===== src/Server/Allowlist/Windows.antt =====
-- What the rules of an entry mean.
use alpr_li_dar_gate_automat.Base.{
  inl, inr, List, Option, [], arith, false, none, refl, some, true, ℕ, ◌%◌, ◌*◌, ◌+◌, ◌-◌, ◌/◌, ◌<◌,
  ◌^◌, ◌↔◌, ◌∷◌, ◌≡◌, ◌≤◌, ◌⊎◌,
}
use alpr_li_dar_gate_automat.Server.Allowlist.{
  is_allowed_now, List, Option, ℕ, VehicleClass, class_eq, TimeWindow, AllowlistEntry, LocalTime,
  window_contains, member_class, class_allowed, any_window, too_early, too_late,
}

abbrev pub day_minutes : ℕ
day_minutes = 1440

-- Minutes from `a` on to the next `b` on the 24-hour dial.
abbrev pub minutes_until : ℕ → ℕ → ℕ
minutes_until a b = (b + day_minutes - a) % day_minutes

-- On the dial a window is one arc: on a day of its mask it holds the minutes that come less than its
-- length after its start, also across midnight; a window that ends where it starts is empty.
pub window_contains_lem :
    (w : TimeWindow) (minute bit : ℕ)
    → w.start_minute_of_day < day_minutes
    → w.end_minute_of_day < day_minutes
    → minute < day_minutes
    → (window_contains w minute bit ≡ true) ↔ (
        (w.days_of_week_mask / 2 ^ bit % 2 ≡ 1)
        × (minutes_until w.start_minute_of_day minute
            < minutes_until w.start_minute_of_day w.end_minute_of_day))
unfolding window_contains
window_contains_lem w minute bit s e m = (ground arith, ground arith)

-- Membership with the witness kept.
abbrev pub Among : VehicleClass → List VehicleClass → Type 0
Among c [] = ⊥
Among c (d ∷ ds) = (d ≡ c) ⊎ Among c ds

abbrev pub InSome : ℕ → ℕ → List TimeWindow → Type 0
InSome minute bit [] = ⊥
InSome minute bit (w ∷ ws) = (window_contains w minute bit ≡ true) ⊎ InSome minute bit ws

class_eq_iff : (a b : VehicleClass) → (class_eq a b ≡ true) ↔ (a ≡ b)
class_eq_iff a b = (ground arith, ground arith)

member_iff : (cs : List VehicleClass) (c : VehicleClass) → (member_class cs c ≡ true) ↔ Among c cs
unfolding member_class
member_iff [] c = (λ e. cc, λ m. absurd m)
member_iff (d ∷ ds) c =
    let (to, from) = member_iff ds c in
    (ground (arith, to, class_eq_iff d c), ground (arith, from, class_eq_iff d c))

any_iff :
    (ws : List TimeWindow) (minute bit : ℕ)
    → (any_window ws minute bit ≡ true) ↔ InSome minute bit ws
unfolding any_window
any_iff [] minute bit = (λ e. cc, λ m. absurd m)
any_iff (w ∷ ws) minute bit =
    let (to, from) = any_iff ws minute bit in (ground (arith, to), ground (arith, from))

-- What an entry grants at a time: its dates hold, its classes are empty or name the vehicle's, and
-- its windows are empty or one holds the minute on the day.
pub record Grants (e : AllowlistEntry) (cls : VehicleClass) (now : ℕ) (local : LocalTime)
    : Type 0 where
  pub begun : (from : ℕ) → e.valid_from ≡ some from → from ≤ now
  pub lasting : (until : ℕ) → e.valid_until ≡ some until → (until ≡ 0) ⊎ (now < until)
  pub of_class : (e.allowed_classes ≡ []) ⊎ Among cls e.allowed_classes
  pub in_window :
      (e.time_windows ≡ [])
      ⊎ InSome (local.hour * 60 + local.min) ((local.wday + 6) % 7) e.time_windows

too_early_iff :
    (o : Option ℕ) (now : ℕ) → (too_early o now ≡ false) ↔ ((from : ℕ) → o ≡ some from → from ≤ now)
too_early_iff none now = (λ e from h. cc, λ h. refl)
too_early_iff (some d) now = (λ e from h. ground arith, λ h. ground (arith, h d refl))

too_late_iff :
    (o : Option ℕ) (now : ℕ)
    → (too_late o now ≡ false) ↔ ((until : ℕ) → o ≡ some until → (until ≡ 0) ⊎ (now < until))
too_late_iff none now = (λ e until h. cc, λ h. refl)
too_late_iff (some d) now = (λ e until h. ground arith, λ h. ground (arith, h d refl))

class_allowed_iff :
    (e : AllowlistEntry) (cls : VehicleClass)
    → (class_allowed e cls ≡ true) ↔ ((e.allowed_classes ≡ []) ⊎ Among cls e.allowed_classes)
unfolding class_allowed
class_allowed_iff e cls =
    let (to, from) = member_iff e.allowed_classes cls in (ground (arith, to), ground (arith, from))

windows_iff :
    (ws : List TimeWindow) (minute bit : ℕ)
    → (any_window ws minute bit ≡ true) ⊎ (ws ≡ [])
    → (ws ≡ []) ⊎ InSome minute bit ws
windows_iff ws minute bit (inl h) = inr ((any_iff ws minute bit).0 h)
windows_iff ws minute bit (inr e) = inl e

-- The four rules, as `is_allowed_now` tests them in turn.
rules :
    (e : AllowlistEntry) (cls : VehicleClass) (now : ℕ) (local : LocalTime)
    → let minute = local.hour * 60 + local.min in
      let bit = (local.wday + 6) % 7 in
      (is_allowed_now e cls now local ≡ true) ↔ (
        (too_early e.valid_from now ≡ false)
        × (too_late e.valid_until now ≡ false)
        × (class_allowed e cls ≡ true)
        × ((e.time_windows ≡ []) ⊎ (any_window e.time_windows minute bit ≡ true)))
unfolding is_allowed_now
rules e cls now local = (ground arith, ground arith)

-- An entry is allowed now exactly if it grants entry: dates, classes and windows all hold.
pub is_allowed_now_lem :
    (e : AllowlistEntry) (cls : VehicleClass) (now : ℕ) (local : LocalTime)
    → (is_allowed_now e cls now local ≡ true) ↔ Grants e cls now local
is_allowed_now_lem e cls now local =
    let minute = local.hour * 60 + local.min in
    let bit = (local.wday + 6) % 7 in
    let (to, from) = rules e cls now local in
    let (some_to, some_from) = any_iff e.time_windows minute bit in
    (
      λ h.
          let (a, b, c, d) = to h in
          record {
            begun = (too_early_iff e.valid_from now).0 a;
            lasting = (too_late_iff e.valid_until now).0 b;
            of_class = (class_allowed_iff e cls).0 c;
            in_window = elim d [ inl x ↦ inl x | inr y ↦ inr (some_to y) ];
          },
      λ g. from (
        (too_early_iff e.valid_from now).1 g.begun,
        (too_late_iff e.valid_until now).1 g.lasting,
        (class_allowed_iff e cls).1 g.of_class,
        elim g.in_window [ inl x ↦ inl x | inr y ↦ inr (some_from y) ],
      ),
    )
