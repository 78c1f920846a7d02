-- ===== src/Drivers/Debounce.antt =====
-- The debouncer that `LimitSwitch` and `SafetyBeam` share: a committed value that follows the
-- sampled one only after enough equal samples. A callback is the value that it reports.
use alpr_li_dar_gate_automat.Base.{
  ℕ, ◌+◌, ◌-◌, ◌/◌, ◌%◌, Bool, not, Option, none, some, bool_eq, ltb, ◌==◌, if◌then◌else◌, u32_mod,
  add32, sub32,
}
pub mod History

pub record Debouncer : Type 0 where
  pub active : Bool
  pub last_sample : Bool
  pub stable_samples : ℕ  -- uint32_t
  pub samples_to_commit : ℕ  -- uint32_t

-- `(debounce_ms + poll_period_ms - 1) / poll_period_ms`, at least 1.
unfoldable pub commit_after : ℕ → ℕ → ℕ
commit_after debounce_ms poll_period_ms =
    let n = sub32 (add32 debounce_ms poll_period_ms) 1 / poll_period_ms in if n == 0 then 1 else n

-- The constructor commits its first sample at once.
unfoldable pub new : ℕ → ℕ → Bool → Debouncer
unfolding commit_after
new debounce_ms poll_period_ms sample = record {
  active = sample;
  last_sample = sample;
  stable_samples = 0;
  samples_to_commit = commit_after debounce_ms poll_period_ms;
}

unfoldable pub poll : Debouncer → Bool → Debouncer × Option Bool
poll d sample =
    let seen = add32 d.stable_samples 1 in
    if not (bool_eq sample d.last_sample)
    then (record d { last_sample = sample; stable_samples = 1 }, none)
    else if bool_eq sample d.active
    then (record d { stable_samples = 0 }, none)
    else if ltb seen d.samples_to_commit
    then (record d { stable_samples = seen }, none)
    else (record d { active = sample; stable_samples = 0 }, some sample)
