-- ===== src/Server/Ctc.antt =====
-- server/inference/src/detail/cpu_algorithms.cpp: the greedy decoding of the text recogniser's scores.
use alpr_li_dar_gate_automat.Base.{
  Bool, List, Option, [], drop, false, if◌then◌else◌, ltb, none, some, suc, take, zero, ℕ, ◌++◌,
  ◌+◌, ◌-◌, ◌==◌, ◌||◌, ◌∷◌,
}
pub mod Best
pub mod Collapse

-- The operations on `float` and `double` that the decoder uses; `mean` divides a sum by a count.
pub record Scores : Type 1 where
  pub Float : Type 0
  pub Double : Type 0
  pub zero_float : Float
  pub zero_double : Double
  pub greater : Float → Float → Bool
  pub add : Double → Float → Double
  pub mean : Double → ℕ → Float

-- The text is a list of bytes.
pub record CtcResult (F : Type 0) : Type 0 where
  pub text : List ℕ
  pub mean_confidence : F

abbrev pub entry : List (List ℕ) → ℕ → List ℕ
entry [] i = []
entry (word ∷ dictionary) zero = word
entry (word ∷ dictionary) (suc i) = entry dictionary i

-- `idx == prev_idx`, where none is -1.
abbrev pub is_prev : Option ℕ → ℕ → Bool
is_prev none idx = false
is_prev (some prev) idx = idx == prev

module _ (S : Scores) where
  -- What the loop over the time steps carries; `prev_idx` is none for -1.
  pub record CtcState : Type 0 where
    pub text : List ℕ
    pub conf_sum : S.Double
    pub kept : ℕ
    pub prev_idx : Option ℕ

  -- The loop over the classes from `c` on, with the best so far.
  unfoldable pub best_from : ℕ × S.Float → ℕ → List S.Float → ℕ × S.Float
  best_from best c [] = best
  best_from (idx, prob) c (p ∷ row) =
      best_from (if S.greater p prob then (c, p) else (idx, prob)) (suc c) row

  -- A row has a class at least; without one the source reads out of bounds.
  unfoldable pub best_of : List S.Float → ℕ × S.Float
  best_of [] = (0, S.zero_float)
  best_of (p ∷ row) = best_from (0, p) 1 row

  unfoldable pub ctc_step : List (List ℕ) → CtcState → ℕ × S.Float → CtcState
  ctc_step dictionary s (idx, prob) =
      if idx == 0 || is_prev s.prev_idx idx then record s { prev_idx = some idx } else record {
        text = s.text ++ entry dictionary (idx - 1);
        conf_sum = S.add s.conf_sum prob;
        kept = s.kept + 1;
        prev_idx = some idx;
      }

  -- Row by row, each of `num_classes` scores.
  unfoldable pub ctc_loop : ℕ → ℕ → List (List ℕ) → CtcState → List S.Float → CtcState
  ctc_loop zero num_classes dictionary s logits = s
  ctc_loop (suc steps) num_classes dictionary s logits =
      ctc_loop steps num_classes dictionary
        (ctc_step dictionary s (best_of (take num_classes logits))) (drop num_classes logits)

  -- A negative length or number of classes is 0 here.
  unfoldable pub ctc_greedy_decode : List S.Float → ℕ → ℕ → List (List ℕ) → CtcResult S.Float
  ctc_greedy_decode logits seq_len num_classes dictionary =
      let start : CtcState = record {
        text = [];
        conf_sum = S.zero_double;
        kept = 0;
        prev_idx = none;
      } in
      let s = ctc_loop seq_len num_classes dictionary start logits in
      if seq_len == 0 || num_classes == 0
      then record { text = []; mean_confidence = S.zero_float }
      else record {
        text = s.text;
        mean_confidence = if ltb 0 s.kept then S.mean s.conf_sum s.kept else S.zero_float;
      }
