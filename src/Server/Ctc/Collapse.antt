-- ===== src/Server/Ctc/Collapse.antt =====
-- The decoder against the definition of CTC: merge equal neighbours, then leave out the blanks.
use mathlib.Core.List.{append-nil, append_assoc}
use alpr_li_dar_gate_automat.Base.{
  ap, ◌*◌, ◌≤◌, false, holds_if, subst, true, ◌<◌, ◌||◌, ◌∙◌, List, Option, [], arith, drop,
  if◌then◌else◌, length, none, refl, some, suc, sym, take, zero, ℕ, ◌++◌, ◌+◌, ◌-◌, ◌==◌, ◌∷◌, ◌≡◌,
}
use alpr_li_dar_gate_automat.Server.Ctc.Best.{
  best_path, best_path-AreBest, AreBest, IsOrder, get_elem?,
}
use alpr_li_dar_gate_automat.Server.Ctc.{
  ctc_greedy_decode, ctc_step, CtcState, best_of, entry, is_prev, Scores, ctc_loop,
}

module _ {A : Type 0} where
  -- The first of each run of equal classes, after `prev`.
  unfoldable pub merged_after : Option ℕ → List (ℕ × A) → List (ℕ × A)
  merged_after prev [] = []
  merged_after prev ((idx, a) ∷ path) =
      if (elim prev [ none ↦ false | some before ↦ idx == before ])
      then merged_after (some idx) path
      else (idx, a) ∷ merged_after (some idx) path

  unfoldable pub without_blanks : List (ℕ × A) → List (ℕ × A)
  without_blanks [] = []
  without_blanks ((idx, a) ∷ path) =
      if idx == 0 then without_blanks path else (idx, a) ∷ without_blanks path

  abbrev pub collapsed : List (ℕ × A) → List (ℕ × A)
  collapsed path = without_blanks (merged_after none path)

  -- Class 1 stands for the first word; a class beyond the dictionary adds nothing.
  abbrev pub spelled : List (List ℕ) → List (ℕ × A) → List ℕ
  spelled dictionary [] = []
  spelled dictionary ((idx, a) ∷ path) =
      (elim (get_elem? dictionary (idx - 1)) [ none ↦ [] | some word ↦ word ])
      ++ spelled dictionary path

entry_lem :
    (dictionary : List (List ℕ)) (i : ℕ)
    → entry dictionary i ≡ elim (get_elem? dictionary i) [ none ↦ [] | some word ↦ word ]
entry_lem [] i = refl
entry_lem (word ∷ dictionary) zero = refl
entry_lem (word ∷ dictionary) (suc i) = entry_lem dictionary i

abbrev pub sum_of : (S : Scores) → S.Double → List (ℕ × S.Float) → S.Double
sum_of S d [] = d
sum_of S d ((idx, p) ∷ path) = sum_of S (S.add d p) path

-- The state after the steps of a path.
unfoldable steps_of : (S : Scores) → List (List ℕ) → CtcState S → List (ℕ × S.Float) → CtcState S
steps_of S dictionary s [] = s
steps_of S dictionary s (x ∷ path) = steps_of S dictionary (ctc_step S dictionary s x) path

ctc_loop-steps_of :
    (S : Scores) (dictionary : List (List ℕ)) (s : CtcState S) (steps num_classes : ℕ)
    (logits : List S.Float)
    → ctc_loop S steps num_classes dictionary s logits
      ≡ steps_of S dictionary s (best_path S steps num_classes logits)
unfolding ctc_loop steps_of best_path
ctc_loop-steps_of S dictionary s zero num_classes logits = refl
ctc_loop-steps_of S dictionary s (suc steps) num_classes logits =
    ctc_loop-steps_of S dictionary (ctc_step S dictionary s (best_of S (take num_classes logits)))
      steps num_classes (drop num_classes logits)

-- What a path adds to a state.
record Adds (S : Scores) (dictionary : List (List ℕ)) (s : CtcState S)
    (kept_path : List (ℕ × S.Float)) (s' : CtcState S) : Type 0 where
  text_of : s'.text ≡ s.text ++ spelled dictionary kept_path
  sum_is : s'.conf_sum ≡ sum_of S s.conf_sum kept_path
  kept_is : s'.kept ≡ s.kept + length kept_path

passed_over :
    {A : Type 0} (prev : Option ℕ) (idx : ℕ) (a : A) (path : List (ℕ × A))
    → idx == 0 || is_prev prev idx ≡ true
    → without_blanks (merged_after prev ((idx, a) ∷ path))
      ≡ without_blanks (merged_after (some idx) path)
unfolding merged_after without_blanks
passed_over prev idx a path h = ground (arith, h)

taken_up :
    {A : Type 0} (prev : Option ℕ) (idx : ℕ) (a : A) (path : List (ℕ × A))
    → idx == 0 || is_prev prev idx ≡ false
    → without_blanks (merged_after prev ((idx, a) ∷ path))
      ≡ (idx, a) ∷ without_blanks (merged_after (some idx) path)
unfolding merged_after without_blanks
taken_up prev idx a path h = ground (arith, h)

steps_of-Adds :
    (S : Scores) (dictionary : List (List ℕ)) (s : CtcState S) (path : List (ℕ × S.Float))
    → Adds S dictionary s
        (without_blanks (merged_after s.prev_idx path))
        (steps_of S dictionary s path)
unfolding steps_of ctc_step
steps_of-Adds S dictionary s [] =
    unfold merged_after without_blanks in
    record { text_of = sym (append-nil s.text); sum_is = refl; kept_is = omega arith }
steps_of-Adds S dictionary s ((idx, p) ∷ path) =
    let grown : CtcState S = record {
      text = s.text ++ entry dictionary (idx - 1);
      conf_sum = S.add s.conf_sum p;
      kept = s.kept + 1;
      prev_idx = some idx;
    } in
    let same = record s { prev_idx = some idx } in
    let later = without_blanks (merged_after (some idx) path) in
    let all = without_blanks (merged_after s.prev_idx ((idx, p) ∷ path)) in
    holds_if (λ s'. Adds S dictionary s all (steps_of S dictionary s' path))
      (idx == 0 || is_prev s.prev_idx idx)
      (λ e.
        let a = steps_of-Adds S dictionary same path in
        subst (λ l. Adds S dictionary s l (steps_of S dictionary same path))
          (sym (passed_over s.prev_idx idx p path e))
          (record { text_of = a.text_of; sum_is = a.sum_is; kept_is = a.kept_is }))
      (λ e.
        let a = steps_of-Adds S dictionary grown path in
        subst (λ l. Adds S dictionary s l (steps_of S dictionary grown path))
          (sym (taken_up s.prev_idx idx p path e))
          (record {
            text_of =
                a.text_of
                ∙ ap (λ w. (s.text ++ w) ++ spelled dictionary later)
                    (entry_lem dictionary (idx - 1))
                ∙ append_assoc s.text _ (spelled dictionary later);
            sum_is = a.sum_is;
            kept_is = omega (arith, a.kept_is);
          }))

-- On a tensor with a row and a class, whose scores are all there and ordered as numbers are, one path
-- has for each row the first class with the highest score. The text is what this path spells once
-- equal neighbours are merged and then the blanks are left out, and the confidence is the mean of the
-- scores of the classes that are left, or zero without one.
pub ctc_greedy_decode_lem :
    (S : Scores) (logits : List S.Float) (seq_len num_classes : ℕ) (dictionary : List (List ℕ))
    → IsOrder S
    → 0 < seq_len
    → 0 < num_classes
    → seq_len * num_classes ≤ length logits
    → let r = ctc_greedy_decode S logits seq_len num_classes dictionary in
      (path : List (ℕ × S.Float)) × AreBest S seq_len num_classes logits path
      × (r.text ≡ spelled dictionary (collapsed path))
      × (r.mean_confidence ≡ (
          if length (collapsed path) == 0
          then S.zero_float
          else S.mean (sum_of S S.zero_double (collapsed path)) (length (collapsed path))))
unfolding ctc_greedy_decode
ctc_greedy_decode_lem S logits seq_len num_classes dictionary order h k all =
    let start : CtcState S = record {
      text = [];
      conf_sum = S.zero_double;
      kept = 0;
      prev_idx = none;
    } in
    let path = best_path S seq_len num_classes logits in
    let a = steps_of-Adds S dictionary start path in
    let loop = ctc_loop-steps_of S dictionary start seq_len num_classes logits in
    (
      path,
      best_path-AreBest S order seq_len num_classes logits k all,
      rw loop (ground (arith, h, k, a.text_of)),
      rw loop (ground (arith, h, k, a.sum_is, a.kept_is)),
    )
