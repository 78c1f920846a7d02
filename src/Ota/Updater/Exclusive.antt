-- ===== src/Ota/Updater/Exclusive.antt =====
-- Attempts do not overlap, and each one that is begun is reported once.
use alpr_li_dar_gate_automat.Base.{
  ℕ, Bool, true, false, List, [], ◌∷◌, ◌++◌, map, Option, ◌≡◌, ◌+◌, refl, arith, if◌then◌else◌,
}
use alpr_li_dar_gate_automat.Ota.Updater.{
  Libraries, Config, Attempt, OtaUpdater, EspErr, esp_ok, begin, run, Call, done, UpdateError,
  run_inner, begin_ota, abort_ota, finish_ota, progress,
}
use alpr_li_dar_gate_automat.Ota.Updater.Calls.{
  IsOrderly, unopened, dropped, refused, staged, run-IsOrderly,
}

abbrev pub accepted : EspErr → ℕ
accepted esp_ok = 1
accepted _ = 0

-- How often the outcome is told.
abbrev pub outcomes : List Call → ℕ
outcomes [] = 0
outcomes (done e ∷ calls) = 1 + outcomes calls
outcomes (_ ∷ calls) = outcomes calls

-- The histories of an updater, with the attempts accepted and the outcomes told: `begin` is called
-- with a callback, on a device with or without memory for the task, and a task that was created ends.
pub data Reaches (L : Libraries) (cfg : Config) : ℕ → ℕ → OtaUpdater → Type 0 where
  fresh : Reaches L cfg 0 0 (record { has_done = false; has_progress = false; running = false })
  begins :
      {n k : ℕ} {u : OtaUpdater} (has_progress spawns : Bool)
      → Reaches L cfg n k u
      → Reaches L cfg
          (n + accepted (begin u true has_progress spawns).1)
          k
          (begin u true has_progress spawns).0
  ends :
      {n k : ℕ} {u : OtaUpdater} (a : Attempt)
      → u.running ≡ true
      → Reaches L cfg n k u
      → Reaches L cfg n (k + outcomes (run L cfg a u).1) (run L cfg a u).0

outcomes-progress :
    (ps : List ℕ) (calls : List Call) → outcomes (map progress ps ++ calls) ≡ outcomes calls
outcomes-progress [] calls = refl
outcomes-progress (p ∷ ps) calls = outcomes-progress ps calls

outcomes-append : (cs ds : List Call) → outcomes (cs ++ ds) ≡ outcomes cs + outcomes ds
outcomes-append [] ds = ground arith
outcomes-append (begin_ota ∷ cs) ds = outcomes-append cs ds
outcomes-append (progress p ∷ cs) ds = outcomes-append cs ds
outcomes-append (abort_ota ∷ cs) ds = outcomes-append cs ds
outcomes-append (finish_ota ∷ cs) ds = outcomes-append cs ds
outcomes-append (done e ∷ cs) ds = omega (arith, outcomes-append cs ds)

outcomes-IsOrderly :
    {calls : List Call} {error : Option UpdateError} → IsOrderly calls error → outcomes calls ≡ 0
outcomes-IsOrderly (unopened e) = refl
outcomes-IsOrderly (dropped ps e) = outcomes-progress ps (abort_ota ∷ [])
outcomes-IsOrderly (refused ps) = outcomes-progress ps (finish_ota ∷ [])
outcomes-IsOrderly (staged ps) = outcomes-progress ps (finish_ota ∷ [])

-- An attempt that runs has its callback, and the attempts accepted are those whose outcome was told
-- once and the one that runs, if there is one.
Balanced : ℕ → ℕ → OtaUpdater → Type 0
Balanced n k u = (u.running ≡ true → u.has_done ≡ true) × (n ≡ k + (if u.running then 1 else 0))

outcomes-run :
    (L : Libraries) (cfg : Config) (a : Attempt) (u : OtaUpdater)
    → u.has_done ≡ true
    → outcomes (run L cfg a u).1 ≡ 1
outcomes-run L cfg a u has =
    let r = run_inner L cfg u.has_progress a in
    let (orderly, told, _) = run-IsOrderly L cfg a u in
    let told_once : (run L cfg a u).1 ≡ r.0 ++ done r.1 ∷ [] = ground (arith, told, has) in
    rw (told_once, outcomes-append, outcomes-IsOrderly orderly) (omega arith)

reaches-Balanced :
    {L : Libraries} {cfg : Config} {n k : ℕ} {u : OtaUpdater} → Reaches L cfg n k u → Balanced n k u
unfolding Balanced begin
reaches-Balanced fresh = (ground arith, refl)
reaches-Balanced (begins {n} {k} {u} has_progress spawns h) =
    let (has, sum) = reaches-Balanced h in (ground (arith, has), ground (arith, sum))
reaches-Balanced {L} {cfg} (ends {n} {k} {u} a on h) =
    let (has, sum) = reaches-Balanced h in
    let (_, _, off) = run-IsOrderly L cfg a u in
    (ground (arith, off), rw (off, outcomes-run L cfg a u (has on)) (ground (arith, sum, on)))

-- From a fresh updater on, if each attempt has a callback for its outcome, the attempts that `begin`
-- accepted are as many as the outcomes told and one more while an attempt runs: attempts do not
-- overlap, and none is told twice or never.
pub reaches_balance :
    {L : Libraries} {cfg : Config} {n k : ℕ} {u : OtaUpdater}
    → Reaches L cfg n k u
    → n ≡ k + (if u.running then 1 else 0)
unfolding Balanced
reaches_balance h = (reaches-Balanced h).1
