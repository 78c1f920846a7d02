-- ===== src/Ota/Updater/Calls.antt =====
-- The calls that one attempt makes, in order.
use alpr_li_dar_gate_automat.Base.{
  ap, holds_if, if◌then◌else◌, not, u32_mod, ◌%◌, ◌/◌, ◌==◌, ◌||◌, ℕ, Bool, false, Option, none,
  some, List, [], ◌∷◌, ◌++◌, map, ◌≡◌, inl, inr, refl,
}
use alpr_li_dar_gate_automat.Ota.Updater.{
  check_image, parse_manifest, validate, Manifest, begin_failed, fetch_json, no_partition, percent,
  rejected, transfer_failed, Libraries, Config, Attempt, UpdateError, Call, begin_ota, progress,
  abort_ota, finish_ota, done, OtaUpdater, download, install, accept, run_inner, run, finish_failed,
}

-- The calls and the outcome of an attempt: the update is never opened and there is an error, or it is
-- opened, its progress told, and then it is dropped with an error, or its boot slot asked for.
pub data IsOrderly : List Call → Option UpdateError → Type 0 where
  unopened : (e : UpdateError) → IsOrderly [] (some e)
  dropped :
      (ps : List ℕ) (e : UpdateError)
      → IsOrderly (begin_ota ∷ map progress ps ++ abort_ota ∷ []) (some e)
  refused :
      (ps : List ℕ)
      → IsOrderly (begin_ota ∷ map progress ps ++ finish_ota ∷ []) (some finish_failed)
  staged : (ps : List ℕ) → IsOrderly (begin_ota ∷ map progress ps ++ finish_ota ∷ []) none

download-progress :
    (listens : Bool) (size last : ℕ) (lengths : List ℕ)
    → (ps : List ℕ) × (download listens size last lengths ≡ map progress ps)
unfolding download
download-progress listens size last [] = ([], refl)
download-progress listens size last (got ∷ lengths) =
    let same = percent size got / 10 == last in
    let next = if same then last else percent size got / 10 in
    let (ps, e) = download-progress listens size next lengths in
    let P : List Call → Type 0 = λ calls. (ps : List ℕ) × (calls ≡ map progress ps) in
    holds_if P same (λ _. (ps, e))
      (λ _.
        holds_if P listens
          (λ _. (percent size got ∷ ps, ap (λ r. progress (percent size got) ∷ r) e))
          (λ _. (ps, e)))

-- The pair of `IsOrderly`.
abbrev Ordered : List Call × Option UpdateError → Type 0
Ordered r = IsOrderly r.0 r.1

module _ (L : Libraries) (cfg : Config) (listens : Bool) (a : Attempt) where
  install-IsOrderly : (m : Manifest) → Ordered (install L cfg listens a m)
  unfolding install
  install-IsOrderly m =
      let (ps, e) = download-progress listens m.image_size 0 a.lengths in
      let calls = begin_ota ∷ download listens m.image_size 0 a.lengths in
      let drops : (error : UpdateError) → Ordered (calls ++ abort_ota ∷ [], some error) =
        λ error. rw e (dropped ps error) in
      holds_if Ordered (not a.begun) (λ _. unopened begin_failed)
        (λ _.
          holds_if Ordered (not a.performed || not a.complete) (λ _. drops transfer_failed)
            (λ _.
              elim (check_image L cfg a m)
                as (λ c. Ordered (elim c [
                  | some error ↦ (calls ++ abort_ota ∷ [], some error)
                  | none ↦
                      (calls ++ finish_ota ∷ [], if a.finishes then none else some finish_failed)
                ])) [
                  | some error ↦ drops error
                  | none ↦ rw e (
                      holds_if (IsOrderly (begin_ota ∷ map progress ps ++ finish_ota ∷ []))
                        a.finishes (λ _. staged ps) (λ _. refused ps))
                ]))

  accept-IsOrderly : (m : Manifest) → Ordered (accept L cfg listens a m)
  unfolding accept
  accept-IsOrderly m =
      elim a.partition_size
        as (λ p. Ordered (elim p [
          | none ↦ ([], some no_partition)
          | some size ↦
              elim (validate m cfg.running_version size (a.time_us / 1_000_000 % u32_mod)) [
                | some r ↦ ([], some (rejected r))
                | none ↦ install L cfg listens a m
              ]
        ])) [
          | none ↦ unopened no_partition
          | some size ↦
              elim (validate m cfg.running_version size (a.time_us / 1_000_000 % u32_mod))
                as (λ v. Ordered (elim v [
                  | some r ↦ ([], some (rejected r))
                  | none ↦ install L cfg listens a m
                ])) [ some r ↦ unopened (rejected r) | none ↦ install-IsOrderly m ]
        ]

  run_inner-IsOrderly : Ordered (run_inner L cfg listens a)
  unfolding run_inner
  run_inner-IsOrderly =
      elim (fetch_json a)
        as (λ f. Ordered (elim f [
          | inl e ↦ ([], some e)
          | inr json ↦ elim (parse_manifest L json) [
            | inl e ↦ ([], some e)
            | inr m ↦ accept L cfg listens a m
          ]
        ])) [
          | inl e ↦ unopened e
          | inr json ↦
              elim (parse_manifest L json)
                as (λ q.
                  Ordered (elim q [ inl e ↦ ([], some e) | inr m ↦ accept L cfg listens a m ])) [
                    | inl e ↦ unopened e
                    | inr m ↦ accept-IsOrderly m
                  ]
        ]

-- Whatever the attempt meets, it either fails before the update is opened, or it opens the update,
-- tells some progress, and then either drops it with an error or asks for its boot slot, with no
-- error or the error of that last call; then it reports the outcome, once, if there is a callback,
-- and lets the next attempt begin.
pub run-IsOrderly :
    (L : Libraries) (cfg : Config) (a : Attempt) (u : OtaUpdater)
    → let r = run_inner L cfg u.has_progress a in
      IsOrderly r.0 r.1
      × ((run L cfg a u).1 ≡ r.0 ++ (if u.has_done then done r.1 ∷ [] else []))
      × ((run L cfg a u).0.running ≡ false)
unfolding run
run-IsOrderly L cfg a u = (run_inner-IsOrderly L cfg u.has_progress a, refl, refl)
