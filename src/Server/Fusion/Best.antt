-- ===== src/Server/Fusion/Best.antt =====
-- The overrides of the gates and the choice of the best detection.
use alpr_li_dar_gate_automat.Base.{
  bytes_eq, none, some, inl, inr, refl, arith, ℕ, true, false, List, [], ◌∷◌, Option, ◌≡◌, ◌⊎◌,
  if◌then◌else◌,
}
use alpr_li_dar_gate_automat.Server.Decision.{
  FloatApi, OverrideState, no_override, kept_open, kept_closed,
}
use alpr_li_dar_gate_automat.Server.Fusion.{
  Overrides, override_for, erase, set_override, pick_from, pick_best,
}

bytes_eq_trans : (a b c : List ℕ) → bytes_eq a b ≡ true → bytes_eq a c ≡ bytes_eq b c
bytes_eq_trans [] [] c h = refl
bytes_eq_trans [] (y ∷ b) c h = ground arith
bytes_eq_trans (x ∷ a) [] c h = ground arith
bytes_eq_trans (x ∷ a) (y ∷ b) [] h = refl
bytes_eq_trans (x ∷ a) (y ∷ b) (z ∷ c) h = ground (arith, bytes_eq_trans a b c)

bytes_eq_sym : (a b : List ℕ) → bytes_eq a b ≡ bytes_eq b a
bytes_eq_sym [] [] = refl
bytes_eq_sym [] (y ∷ b) = refl
bytes_eq_sym (x ∷ a) [] = refl
bytes_eq_sym (x ∷ a) (y ∷ b) = ground (arith, bytes_eq_sym a b)

override_for-erase :
    (m : Overrides) (g h : List ℕ)
    → override_for (erase m g) h ≡ (if bytes_eq g h then no_override else override_for m h)
unfolding override_for erase
override_for-erase [] g h = ground arith
override_for-erase ((k, s) ∷ m) g h =
    let ih = override_for-erase m g h in
    let same = bytes_eq_trans k g h in
    let apart = bytes_eq_trans k h g in
    let sym_gh = bytes_eq_sym g h in ground (arith, ih, same, apart, sym_gh)

-- Setting a gate's override changes what is read for that gate only; no override is the absence of
-- an entry.
pub override_for-set_override :
    (m : Overrides) (g : List ℕ) (s : OverrideState) (h : List ℕ)
    → override_for (set_override m g s) h ≡ (if bytes_eq g h then s else override_for m h)
unfolding override_for set_override
override_for-set_override m g no_override h = override_for-erase m g h
override_for-set_override m g kept_open h = ground (arith, override_for-erase m g h)
override_for-set_override m g kept_closed h = ground (arith, override_for-erase m g h)

-- The order of floats where none is NaN.
pub record IsOrdered (F : FloatApi) : Type 0 where
  pub lt_irrefl : (a : F.Float) → F.lt_float a a ≡ false
  pub lt_asym : (a b : F.Float) → F.lt_float a b ≡ true → F.lt_float b a ≡ false
  pub not_lt_trans :
      (a b c : F.Float) → F.lt_float a b ≡ false → F.lt_float b c ≡ false → F.lt_float a c ≡ false

abbrev pub Holds : {A : Type 0} → A → List A → Type 0
Holds x [] = ⊥
Holds x (y ∷ ys) = (y ≡ x) ⊎ Holds x ys

module _ (F : FloatApi) {A : Type 0} (score : A → F.Float) where
  -- No element of the list scores more than `b`.
  abbrev pub AtMost : F.Float → List A → Type 0
  AtMost b xs = (y : A) → Holds y xs → F.lt_float b (score y) ≡ false

  -- What a choice from the list should be: an element of the highest score, or nothing where none
  -- scores more than -1.
  abbrev pub IsBest : List A → Option A → Type 0
  IsBest xs none = AtMost F.minus_one xs
  IsBest xs (some x) = Holds x xs × AtMost (score x) xs

  pick_from-none :
      (xs : List A) (best : Option A) (b : F.Float)
      → pick_from F score best b xs ≡ none
      → (best ≡ none) × AtMost b xs
  unfolding pick_from
  pick_from-none [] best b h = (h, λ y m. absurd m)
  pick_from-none (x ∷ xs) best b h =
      let (e, m) = pick_from-none xs _ _ h in
      (
        ground (arith, e),
        λ y k. elim k [ inl q ↦ ground (arith, e, q) | inr r ↦ ground (arith, e, m y r) ],
      )

  pick_from-some :
      IsOrdered F
      → (xs : List A) (best : Option A) (b : F.Float) (x : A)
      → ((z : A) → best ≡ some z → b ≡ score z)
      → pick_from F score best b xs ≡ some x
      → ((best ≡ some x) ⊎ Holds x xs) × (F.lt_float (score x) b ≡ false) × AtMost (score x) xs
  unfolding pick_from
  pick_from-some o [] best b x i h =
      (inl h, ground (arith, i x h, o.lt_irrefl (score x)), λ y m. absurd m)
  pick_from-some o (z ∷ xs) best b x i h =
      let (e, l, m) = pick_from-some o xs _ _ x (λ y e. ground (arith, e, i y)) h in
      (
        ground (arith, e),
        ground (arith, l, o.not_lt_trans (score x) (score z) b, o.lt_asym b (score z)),
        λ y k. elim k [
          | inl q ↦ ground (arith, q, l, o.not_lt_trans (score x) b (score z))
          | inr r ↦ m y r
        ],
      )

  pick_from-IsBest :
      IsOrdered F
      → (xs : List A) (r : Option A) → pick_from F score none F.minus_one xs ≡ r
      → IsBest xs r
  pick_from-IsBest o xs none h = (pick_from-none xs none F.minus_one h).1
  pick_from-IsBest o xs (some x) h =
      let (e, l, m) = pick_from-some o xs none F.minus_one x (λ z e. ground arith) h in
      (ground (arith, e), m)

  -- Where the order of scores is that of floats without NaN, the choice is the best: an element of the
  -- list that none exceeds, or nothing where no score exceeds -1.
  pub pick_best-IsBest : IsOrdered F → (xs : List A) → IsBest xs (pick_best F score xs)
  unfolding pick_best
  pick_best-IsBest o xs = pick_from-IsBest o xs _ refl
