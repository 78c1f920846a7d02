-- ===== src/Dashboard/Auth/Texts.antt =====
-- Reading back what the printers wrote: hex, decimal numbers, and fields behind '$'.
use alpr_li_dar_gate_automat.Base.{
  Option-cases, holds_if, inl, inr, ℕ, zero, suc, true, false, List, [], ◌∷◌, ◌++◌, some, ltb, ◌==◌,
  ◌≡◌, refl, ap, ◌∙◌, sym, arith, ◌+◌, ◌*◌, ◌-◌, ◌/◌, ◌%◌, ◌^◌, ◌<◌, ◌≤◌, length, All, All-snoc,
  Bool-cases, Option-cases,
}
use alpr_li_dar_gate_automat.Dashboard.Auth.{
  hex_digit, to_hex, is_space, skip_spaces, hex_value, scan_item, scan_pairs, from_hex, decimal,
  to_string, is_digit, digits_from, stoul_digits, stoul_signed, stoul, cut,
}

abbrev pub IsByte : ℕ → Type 0
IsByte b = b < 256

hex_value-hex_digit : (n : ℕ) → n < 16 → hex_value (hex_digit n) ≡ some n
unfolding hex_value
hex_value-hex_digit n h = ground arith

scan_item-hex_digit :
    (hi lo : ℕ) (s : List ℕ)
    → hi < 16
    → lo < 16
    → scan_item (skip_spaces (hex_digit hi ∷ hex_digit lo ∷ s)) ≡ some (hi * 16 + lo)
unfolding scan_item skip_spaces
scan_item-hex_digit hi lo s h l =
    let solid : is_space (hex_digit hi) ≡ false = ground arith in
    ground (arith, solid, hex_value-hex_digit hi h, hex_value-hex_digit lo l)

scan_pairs-to_hex : (bytes : List ℕ) → All IsByte bytes → scan_pairs (to_hex bytes) ≡ some bytes
unfolding scan_pairs to_hex
scan_pairs-to_hex [] h = refl
scan_pairs-to_hex (b ∷ bytes) (small, h) =
    let (hi, lo) : (b / 16 < 16) × (b % 16 < 16) = (omega arith, omega arith) in
    let whole : b / 16 * 16 + b % 16 ≡ b = omega arith in
    ground (
      arith,
      scan_item-hex_digit (b / 16) (b % 16) (to_hex bytes) hi lo,
      scan_pairs-to_hex bytes h,
      whole,
    )

length-to_hex : (bytes : List ℕ) → length (to_hex bytes) ≡ 2 * length bytes
unfolding to_hex
length-to_hex [] = omega arith
length-to_hex (b ∷ bytes) = omega (arith, length-to_hex bytes)

pub from_hex-to_hex :
    (bytes : List ℕ) → 0 < length bytes → All IsByte bytes → from_hex (to_hex bytes) ≡ some bytes
unfolding from_hex to_hex
from_hex-to_hex [] some_byte h = absurd (omega (arith, some_byte))
from_hex-to_hex (b ∷ bytes) some_byte h =
    let even : (length (to_hex (b ∷ bytes)) % 2 == 0) ≡ true =
      ground (arith, length-to_hex (b ∷ bytes)) in
    ground (arith, even, scan_pairs-to_hex (b ∷ bytes) h)

abbrev IsDigit : ℕ → Type 0
IsDigit c = is_digit c ≡ true

decimal-IsDigit : (fuel n : ℕ) → n ≤ fuel → All IsDigit (decimal fuel n)
unfolding decimal
decimal-IsDigit zero n h = (ground arith, tt)
decimal-IsDigit (suc fuel) n h =
    let front = decimal-IsDigit fuel (n / 10) (omega (arith, h)) in
    let one : IsDigit (b'0' + n % 10) = ground arith in
    holds_if (All IsDigit) (ltb n 10) (λ small. (ground (arith, small), tt))
      (λ large. All-snoc IsDigit (decimal fuel (n / 10)) (b'0' + n % 10) front one)

digits_from_snoc :
    (acc : ℕ) (s : List ℕ) (c : ℕ)
    → All IsDigit s
    → IsDigit c
    → digits_from acc (s ++ c ∷ []) ≡ digits_from acc s * 10 + (c - b'0')
unfolding digits_from
digits_from_snoc acc [] c h d = ground (arith, d)
digits_from_snoc acc (e ∷ s) c (f, h) d =
    ground (arith, f, digits_from_snoc (acc * 10 + (e - b'0')) s c h d)

digits_from-decimal : (fuel n : ℕ) → n ≤ fuel → digits_from 0 (decimal fuel n) ≡ n
unfolding decimal digits_from
digits_from-decimal zero n h = ground arith
digits_from-decimal (suc fuel) n h =
    let shorter : n / 10 ≤ fuel = omega (arith, h) in
    let one : IsDigit (b'0' + n % 10) = ground arith in
    let front =
      digits_from_snoc 0 (decimal fuel (n / 10)) (b'0' + n % 10)
        (decimal-IsDigit fuel (n / 10) shorter) one in
    let rest = digits_from-decimal fuel (n / 10) shorter in
    let whole : n / 10 * 10 + (b'0' + n % 10 - b'0') ≡ n = omega arith in
    elim (Bool-cases (ltb n 10)) [
      | inl small ↦ ground (arith, small)
      | inr large ↦ ground (arith, large, front, rest, whole)
    ]

-- A number in decimal is not empty and starts with a digit.
decimal_first :
    (fuel n : ℕ) → n ≤ fuel → (c : ℕ) × (s : List ℕ) × (decimal fuel n ≡ c ∷ s) × IsDigit c
unfolding decimal
decimal_first zero n h = (b'0' + n, [], refl, ground arith)
decimal_first (suc fuel) n h = elim (Bool-cases (ltb n 10)) [
  | inl small ↦ (b'0' + n, [], ground (arith, small), ground (arith, small))
  | inr large ↦
      let (c, s, e, d) = decimal_first fuel (n / 10) (omega (arith, h)) in
      (c, s ++ (b'0' + n % 10) ∷ [], ground (arith, large, e), d)
]

pub stoul-to_string : (n : ℕ) → n < 2 ^ 64 → stoul (to_string n) ≡ some n
unfolding stoul to_string stoul_signed stoul_digits skip_spaces
stoul-to_string n h =
    let (c, s, e, d) = decimal_first n n (omega arith) in
    let value : digits_from 0 (c ∷ s) ≡ n =
      ap (digits_from 0) (sym e) ∙ digits_from-decimal n n (omega arith) in
    ground (arith, e, d, value)

abbrev pub IsPlain : ℕ → Type 0
IsPlain c = (c == b'$') ≡ false

-- What is cut was joined, and the first part has no '$'.
pub cut_inverse :
    (s before behind : List ℕ)
    → cut s ≡ some (before, behind)
    → (s ≡ before ++ b'$' ∷ behind) × All IsPlain before
unfolding cut
cut_inverse [] before behind h = ground (arith, h)
cut_inverse (c ∷ s) before behind h = elim (Bool-cases (c == b'$')) [
  | inl here ↦
      let empty : before ≡ [] = ground (arith, h, here) in
      let all_behind : behind ≡ s = ground (arith, h, here) in
      let sign : c ≡ b'$' = ground (arith, here) in (rw (empty, all_behind, sign) refl, rw empty tt)
  | inr on ↦ elim (Option-cases (cut s)) [
    | inl n ↦ ground (arith, h, on, n)
    | inr ((b, t), e) ↦
        (let (joined, plain) = cut_inverse s b t e in
          let front : before ≡ c ∷ b = ground (arith, h, on, e) in
          let tail : behind ≡ t = ground (arith, h, on, e) in
          (rw (front, tail) (ap (λ r. c ∷ r) joined), rw front (on, plain)))
  ]
]

pub cut-append : (s behind : List ℕ) → All IsPlain s → cut (s ++ b'$' ∷ behind) ≡ some (s, behind)
unfolding cut
cut-append [] behind h = refl
cut-append (c ∷ s) behind (p, h) = ground (arith, p, cut-append s behind h)

digits-IsPlain : (s : List ℕ) → All IsDigit s → All IsPlain s
digits-IsPlain [] h = tt
digits-IsPlain (c ∷ s) (d, h) = (ground (arith, d), digits-IsPlain s h)

pub decimal-IsPlain : (n : ℕ) → All IsPlain (to_string n)
unfolding to_string
decimal-IsPlain n = digits-IsPlain (decimal n n) (decimal-IsDigit n n (omega arith))

pub to_hex-IsPlain : (bytes : List ℕ) → All IsByte bytes → All IsPlain (to_hex bytes)
unfolding to_hex
to_hex-IsPlain [] h = tt
to_hex-IsPlain (b ∷ bytes) (small, h) =
    (ground (arith, small), (ground (arith, small), to_hex-IsPlain bytes h))
