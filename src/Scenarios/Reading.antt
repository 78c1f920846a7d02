-- ===== src/Scenarios/Reading.antt =====
-- The decoder of plate texts on concrete scores.
use alpr_li_dar_gate_automat.Server.Ctc.Collapse.{ctc_greedy_decode_lem, sum_of, spelled, collapsed}
use alpr_li_dar_gate_automat.Base.{
  List, [], arith, if◌then◌else◌, length, ltb, suc, zero, ℕ, ◌+◌, ◌/◌, ◌==◌, ◌∷◌, ◌≡◌,
}
use alpr_li_dar_gate_automat.Server.Ctc.Best.{AreBest, IsOrder}
use alpr_li_dar_gate_automat.Server.Ctc.{ctc_greedy_decode, Scores}

abbrev whole_scores : Scores
whole_scores = record {
  Float = ℕ;
  Double = ℕ;
  zero_float = 0;
  zero_double = 0;
  greater = λ a b. ltb b a;
  add = λ a b. a + b;
  mean = λ sum n. elim n [ zero ↦ 0 | suc k ↦ sum / suc k ];
}

-- Three classes: the blank, K and A; the rows are K, K, blank, K, A.
abbrev five_rows : List ℕ
five_rows = 1 ∷ 7 ∷ 2 ∷ 0 ∷ 8 ∷ 2 ∷ 9 ∷ 1 ∷ 0 ∷ 2 ∷ 5 ∷ 3 ∷ 1 ∷ 1 ∷ 6 ∷ []

abbrev two_letters : List (List ℕ)
two_letters = (b'K' ∷ []) ∷ (b'A' ∷ []) ∷ []

whole_scores-IsOrder : IsOrder whole_scores
whole_scores-IsOrder = record {
  one_way = λ a b h. ground (arith, h);
  above_level = λ a b c h k. ground (arith, h, k);
}

ctc_greedy_decode_lem_example :
    let r = ctc_greedy_decode whole_scores five_rows 5 3 two_letters in
    (path : List (ℕ × ℕ)) × AreBest whole_scores 5 3 five_rows path
    × (r.text ≡ spelled two_letters (collapsed path))
    × (r.mean_confidence ≡ (
        if length (collapsed path) == 0
        then 0
        else whole_scores.mean (sum_of whole_scores 0 (collapsed path)) (length (collapsed path))))
ctc_greedy_decode_lem_example =
    ctc_greedy_decode_lem whole_scores five_rows 5 3 two_letters whole_scores-IsOrder (omega arith)
      (omega arith) (omega arith)
