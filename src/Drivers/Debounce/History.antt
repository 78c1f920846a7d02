-- ===== src/Drivers/Debounce/History.antt =====
-- The debouncer against the history of its samples, newest first.
use Prim.Native.Nat.{max}
use alpr_li_dar_gate_automat.Base.{
  none, some, subst, sym, ◌↔◌, ◌⊎◌, ℕ, suc, ◌≤◌, ◌<◌, ◌≡◌, ◌≢◌, Bool, not, List, [], ◌∷◌, bool_eq,
  if◌then◌else◌, u32_mod, arith,
}
use alpr_li_dar_gate_automat.Drivers.Debounce.{Debouncer, poll, new, commit_after}

abbrev pub after : Debouncer → List Bool → Debouncer
after d [] = d
after d (s ∷ older) = (poll (after d older) s).0

-- How many of the newest samples in a row are `v`.
abbrev pub run_length : Bool → List Bool → ℕ
run_length v [] = 0
run_length v (s ∷ older) = if bool_eq s v then suc (run_length v older) else 0

-- The number of equal samples that commits a change: a first sample never commits.
abbrev pub needed : Debouncer → ℕ
needed d = max 2 d.samples_to_commit

pub record IsSettled (d : Debouncer) : Type 0 where
  pub agreed : d.last_sample ≡ d.active
  pub fits : d.samples_to_commit < u32_mod

-- The debouncer `d`, which began as `d₀`, counts the run of samples that disagree with its value.
pub record Counts (d₀ d : Debouncer) (h : List Bool) : Type 0 where
  pub same_limit : d.samples_to_commit ≡ d₀.samples_to_commit
  pub pending :
      d.last_sample ≢ d.active
      → (d.stable_samples ≡ run_length d.last_sample h)
        × (0 < d.stable_samples)
        × (d.stable_samples < needed d)
  pub behind : run_length (not d.last_sample) h ≡ 0
  pub follows : (needed d ≤ run_length d.last_sample h) → d.last_sample ≡ d.active

poll-Counts :
    (d₀ d : Debouncer) (h : List Bool) (s : Bool)
    → d.samples_to_commit < u32_mod
    → Counts d₀ d h
    → Counts d₀ (poll d s).0 (s ∷ h)
unfolding poll
poll-Counts d₀ d h s f c = ground arith

after-Counts : (d : Debouncer) (h : List Bool) → IsSettled d → Counts d (after d h) h
after-Counts d [] v = ground arith
after-Counts d (s ∷ older) v =
    let c = after-Counts d older v in
    poll-Counts d (after d older) older s (subst (λ n. n < u32_mod) (sym c.same_limit) v.fits) c

reports_iff :
    (d₀ d : Debouncer) (h : List Bool) (s : Bool)
    → d.samples_to_commit < u32_mod
    → Counts d₀ d h
    → ((poll d s).1 ≡ some s) ↔ ((s ≢ d.active) × (needed d₀ ≤ run_length s (s ∷ h)))
unfolding poll
reports_iff d₀ d h s f c = (ground arith, ground arith)

-- A poll of a debouncer that began settled reports its sample exactly when the sample differs from
-- the committed value and is the last of a run of at least `needed` equal samples; so a shorter
-- glitch is never reported and a lasting change is never missed.
pub poll-reports :
    (d : Debouncer) (h : List Bool) (s : Bool)
    → IsSettled d
    → ((poll (after d h) s).1 ≡ some s)
      ↔ ((s ≢ (after d h).active) × (needed d ≤ run_length s (s ∷ h)))
poll-reports d h s v =
    let c = after-Counts d h v in
    reports_iff d (after d h) h s (subst (λ n. n < u32_mod) (sym c.same_limit) v.fits) c

active_of_Counts :
    (d₀ d : Debouncer) (h : List Bool) (v : Bool)
    → Counts d₀ d h
    → needed d₀ ≤ run_length v h
    → d.active ≡ v
active_of_Counts d₀ d h v c n = ground arith

-- After `needed` equal samples in a row the committed value is that sample.
pub active-after :
    (d : Debouncer) (h : List Bool) (v : Bool)
    → IsSettled d
    → needed d ≤ run_length v h
    → (after d h).active ≡ v
active-after d h v s n = active_of_Counts d (after d h) h v (after-Counts d h s) n

-- What a poll reports is exactly the change of the committed value.
pub active-poll :
    (d : Debouncer) (s : Bool)
    → ((poll d s).1 ≡ none × (poll d s).0.active ≡ d.active)
      ⊎ ((poll d s).1 ≡ some s × (poll d s).0.active ≡ s × d.active ≡ not s)
unfolding poll
active-poll d s = ground arith

-- The debouncer that the constructors build begins settled, and commits within 2 ^ 32 samples.
pub new-IsSettled :
    (debounce_ms poll_period_ms : ℕ) (s : Bool)
    → debounce_ms < u32_mod
    → IsSettled (new debounce_ms poll_period_ms s)
unfolding new commit_after
new-IsSettled debounce_ms poll_period_ms s h = ground arith
