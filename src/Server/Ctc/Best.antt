-- ===== src/Server/Ctc/Best.antt =====
-- The class that the decoder takes for each row: the first of those with the highest score.
use alpr_li_dar_gate_automat.Base.{
  sym, ap, ltb, Bool-cases, false, inl, inr, true, ◌<◌, ◌≤◌, ◌∙◌, List, Option, [], arith, drop,
  if◌then◌else◌, length, none, some, suc, take, zero, ℕ, ◌+◌, ◌*◌, ◌-◌, ◌∷◌, ◌≡◌, refl,
}
use alpr_li_dar_gate_automat.Server.Ctc.{Scores, best_from, best_of}

abbrev pub get_elem? : {A : Type 0} → List A → ℕ → Option A
get_elem? [] i = none
get_elem? (x ∷ xs) zero = some x
get_elem? (x ∷ xs) (suc i) = get_elem? xs i

-- The comparison is that of numbers, as it is on `float` without NaN: never both ways, and what is
-- above a score is above all that are not above it.
pub record IsOrder (S : Scores) : Type 0 where
  pub one_way : (a b : S.Float) → S.greater a b ≡ true → S.greater b a ≡ false
  pub above_level :
      (a b c : S.Float) → S.greater a b ≡ true → S.greater c b ≡ false → S.greater a c ≡ true

-- The class with its score stands in the row; every class before it has a lower score, and none
-- after it a higher one.
pub record IsBest (S : Scores) (row : List S.Float) (best : ℕ × S.Float) : Type 0 where
  pub stands : get_elem? row best.0 ≡ some best.1
  pub below :
      (i : ℕ) (p : S.Float) → i < best.0 → get_elem? row i ≡ some p → S.greater best.1 p ≡ true
  pub highest :
      (i : ℕ) (p : S.Float) → best.0 < i → get_elem? row i ≡ some p → S.greater p best.1 ≡ false

-- The best class of each row.
abbrev pub AreBest : (S : Scores) → ℕ → ℕ → List S.Float → List (ℕ × S.Float) → Type 0
AreBest S zero num_classes logits [] = Unit {0}
AreBest S zero num_classes logits (best ∷ path) = ⊥
AreBest S (suc steps) num_classes logits [] = ⊥
AreBest S (suc steps) num_classes logits (best ∷ path) =
    IsBest S (take num_classes logits) best
    × AreBest S steps num_classes (drop num_classes logits) path

-- The best class of each row, with its score, as the decoder finds it.
unfoldable pub best_path : (S : Scores) → ℕ → ℕ → List S.Float → List (ℕ × S.Float)
best_path S zero num_classes logits = []
best_path S (suc steps) num_classes logits =
    best_of S (take num_classes logits) ∷ best_path S steps num_classes (drop num_classes logits)

length-take : {A : Type 0} (n : ℕ) (xs : List A) → n ≤ length xs → length (take n xs) ≡ n
length-take zero xs h = refl
length-take (suc n) [] h = absurd (omega arith)
length-take (suc n) (x ∷ xs) h = omega (arith, length-take n xs (omega arith))

length-drop : {A : Type 0} (n : ℕ) (xs : List A) → length (drop n xs) ≡ length xs - n
length-drop zero xs = omega arith
length-drop (suc n) [] = omega arith
length-drop (suc n) (x ∷ xs) = omega (arith, length-drop n xs)

module _ (S : Scores) (order : IsOrder S) where
  -- `best` is the best of the classes below `c`, and `rest` has the scores from `c` on.
  record Scanned (row : List S.Float) (best : ℕ × S.Float) (c : ℕ) (rest : List S.Float)
      : Type 0 where
    ahead : (i : ℕ) → get_elem? rest i ≡ get_elem? row (c + i)
    past : best.0 < c
    stands : get_elem? row best.0 ≡ some best.1
    below :
        (i : ℕ) (p : S.Float) → i < best.0 → get_elem? row i ≡ some p → S.greater best.1 p ≡ true
    highest :
        (i : ℕ) (p : S.Float)
        → best.0 < i
        → i < c
        → get_elem? row i ≡ some p
        → S.greater p best.1 ≡ false

  ended-IsBest :
      (row : List S.Float) (best : ℕ × S.Float) (c : ℕ) → Scanned row best c [] → IsBest S row best
  ended-IsBest row best c s = record {
    stands = s.stands;
    below = s.below;
    highest = λ i p h e. elim (Bool-cases (ltb i c)) [
      | inl lower ↦ s.highest i p h (ground (arith, lower)) e
      | inr beyond ↦
          let same : c + (i - c) ≡ i = ground (arith, beyond) in
          let gone : none ≡ get_elem? row i = s.ahead (i - c) ∙ ap (get_elem? row) same in
          absurd (cc)
    ];
  }

  at_front :
      (row : List S.Float) (best : ℕ × S.Float) (c : ℕ) (q : S.Float) (rest : List S.Float)
      → Scanned row best c (q ∷ rest)
      → get_elem? row c ≡ some q
  at_front row best c q rest s =
      let here : c ≡ c + 0 = omega arith in ap (get_elem? row) here ∙ sym (s.ahead 0)

  new_best :
      (row : List S.Float) (best : ℕ × S.Float) (c : ℕ) (q : S.Float) (rest : List S.Float)
      → Scanned row best c (q ∷ rest)
      → S.greater q best.1 ≡ true
      → Scanned row (c, q) (suc c) rest
  new_best row best c q rest s g = record {
    ahead = λ i. s.ahead (suc i) ∙ ap (get_elem? row) (omega arith);
    past = omega arith;
    stands = at_front row best c q rest s;
    below = λ i p h e. elim (Bool-cases (ltb i best.0)) [
      | inl lower ↦
          let b = s.below i p (ground (arith, lower)) e in
          order.above_level q best.1 p g (order.one_way best.1 p b)
      | inr level ↦ elim (Bool-cases (ltb best.0 i)) [
        | inl above ↦
            order.above_level q best.1 p g
              (s.highest i p (ground (arith, above)) (omega (arith, h)) e)
        | inr equal ↦
            let same : i ≡ best.0 = ground (arith, level, equal) in
            let score : some p ≡ some best.1 = sym e ∙ ap (get_elem? row) same ∙ s.stands in
            ground (arith, score, g)
      ]
    ];
    highest = λ i p h k e. absurd (omega arith);
  }

  kept_best :
      (row : List S.Float) (best : ℕ × S.Float) (c : ℕ) (q : S.Float) (rest : List S.Float)
      → Scanned row best c (q ∷ rest)
      → S.greater q best.1 ≡ false
      → Scanned row best (suc c) rest
  kept_best row best c q rest s g = record {
    ahead = λ i. s.ahead (suc i) ∙ ap (get_elem? row) (omega arith);
    past = omega (arith, s.past);
    stands = s.stands;
    below = s.below;
    highest = λ i p h k e. elim (Bool-cases (ltb i c)) [
      | inl lower ↦ s.highest i p h (ground (arith, lower)) e
      | inr level ↦
          let same : i ≡ c = ground (arith, level) in
          let score : some p ≡ some q =
            sym e ∙ ap (get_elem? row) same ∙ at_front row best c q rest s in
          ground (arith, score, g)
    ];
  }

  best_from-IsBest :
      (row : List S.Float) (best : ℕ × S.Float) (c : ℕ) (rest : List S.Float)
      → Scanned row best c rest
      → IsBest S row (best_from S best c rest)
  unfolding best_from
  best_from-IsBest row best c [] s = ended-IsBest row best c s
  best_from-IsBest row best c (q ∷ rest) s = elim (Bool-cases (S.greater q best.1)) [
    | inl g ↦
        rw (g, if◌then◌else◌)
          (best_from-IsBest row (c, q) (suc c) rest (new_best row best c q rest s g))
    | inr g ↦
        rw (g, if◌then◌else◌)
          (best_from-IsBest row best (suc c) rest (kept_best row best c q rest s g))
  ]

  best_of-IsBest : (row : List S.Float) → 0 < length row → IsBest S row (best_of S row)
  unfolding best_of
  best_of-IsBest [] h = absurd (omega (arith, h))
  best_of-IsBest (p ∷ row) h =
      best_from-IsBest (p ∷ row) (0, p) 1 row
        (record {
          ahead = λ i. let next : suc i ≡ 1 + i = omega arith in ap (get_elem? (p ∷ row)) next;
          past = omega arith;
          stands = refl;
          below = λ i q k e. absurd (omega arith);
          highest = λ i q k l e. absurd (omega arith);
        })

  pub best_path-AreBest :
      (steps num_classes : ℕ) (logits : List S.Float)
      → 0 < num_classes
      → steps * num_classes ≤ length logits
      → AreBest S steps num_classes logits (best_path S steps num_classes logits)
  unfolding best_path
  best_path-AreBest zero n logits h k = tt
  best_path-AreBest (suc steps) n logits h k =
      let row = length-take n logits (omega arith) in
      (
        best_of-IsBest (take n logits) (omega (arith, row)),
        best_path-AreBest steps n (drop n logits) h (omega (arith, length-drop n logits)),
      )
