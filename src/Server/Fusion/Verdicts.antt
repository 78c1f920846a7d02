-- ===== src/Server/Fusion/Verdicts.antt =====
-- Who gets in, and with which reason the others are turned away.
use alpr_li_dar_gate_automat.Base.{
  none, some, refl, arith, ℕ, true, false, List, Option, ◌≡◌, ◌≢◌, ◌↔◌, ◌⊎◌,
}
use alpr_li_dar_gate_automat.Server.Plate.{normalize_plate}
use alpr_li_dar_gate_automat.Server.Allowlist.{
  is_allowed_now, LocalTime, VehicleClass, AllowlistEntry,
}
use alpr_li_dar_gate_automat.Server.Decision.{
  FloatApi, Store, OverrideState, kept_open, kept_closed, no_override, authorized, no_reason,
  FusionConfig, PlateDetection, AuthorizeRequest, AuthDecision,
}
use alpr_li_dar_gate_automat.Server.Fusion.{
  Overrides, override_for, pick_best, check_entry, denied_with, judge, matched, decide_on,
  lidar_side, blend, fold_alpr_confidence, decide_at,
}

module _ {F : FloatApi} where
  -- What the checks after the overrides ask of a plate, a vehicle class and a combined confidence.
  pub record IsEntitled (cfg : FusionConfig F) (store : Store) (req : AuthorizeRequest F)
      (plate : List ℕ) (cls : VehicleClass) (conf : F.Float) (now : ℕ) (local : LocalTime)
      : Type 0 where
    pub confident : F.lt_float conf cfg.min_combined_threshold ≡ false
    pub not_blocklisted : store.is_blocklisted req.site_id plate ≡ false
    pub vouched :
        (req.override_allowlist ≡ true)
        ⊎ ((e : AllowlistEntry) × (store.lookup req.site_id plate ≡ some e)
            × (is_allowed_now e cls now local ≡ true))

  -- Who gets in: nobody under a force-close and nobody without a plate; with a plate, everybody under
  -- a force-open and otherwise the entitled.
  pub record GetsIn (cfg : FusionConfig F) (store : Store) (overrides : Overrides)
      (req : AuthorizeRequest F) (now : ℕ) (local : LocalTime) : Type 0 where
    pub not_closed : override_for overrides req.gate_id ≢ kept_closed
    pub plate : PlateDetection F
    pub best : pick_best F (λ p. p.detection_conf) req.plates ≡ some plate
    pub allowed :
        let side = lidar_side cfg (pick_best F (λ v. v.class_conf) req.vehicles) in
        (override_for overrides req.gate_id ≡ kept_open)
        ⊎ IsEntitled cfg store req
            (normalize_plate plate.plate_text)
            side.0
            (blend cfg (fold_alpr_confidence plate) side.1)
            now
            local

  check_entry_iff :
      (out : AuthDecision F) (o : Option AllowlistEntry) (cls : VehicleClass) (now : ℕ)
      (local : LocalTime)
      → ((check_entry out o cls now local).verdict ≡ authorized)
        ↔ ((e : AllowlistEntry) × (o ≡ some e) × (is_allowed_now e cls now local ≡ true))
  unfolding check_entry denied_with
  check_entry_iff out none cls now local = (λ h. ground arith, λ (e, h, _). ground arith)
  check_entry_iff out (some e) cls now local =
      (λ h. (e, refl, ground arith), λ (e', h, a). ground arith)

  judge_iff :
      (cfg : FusionConfig F) (store : Store) (state : OverrideState) (req : AuthorizeRequest F)
      (alpr lidar : F.Float) (out : AuthDecision F) (now : ℕ) (local : LocalTime)
      → ((judge cfg store state req alpr lidar out now local).verdict ≡ authorized) ↔ (
          (state ≡ kept_open)
          ⊎ IsEntitled cfg store req out.matched_plate out.matched_class out.combined_conf now
              local)
  unfolding judge denied_with
  judge_iff cfg store state req alpr lidar out now local =
      let (to, from) =
        check_entry_iff out (store.lookup req.site_id out.matched_plate) out.matched_class now
          local in
      (ground (arith, to), ground (arith, from))

  decide_on_iff :
      (cfg : FusionConfig F) (store : Store) (state : OverrideState) (req : AuthorizeRequest F)
      (best : Option (PlateDetection F)) (out : AuthDecision F) (now : ℕ) (local : LocalTime)
      → ((decide_on cfg store state req best out now local).verdict ≡ authorized) ↔ (
          (state ≢ kept_closed)
          × ((plate : PlateDetection F) × (best ≡ some plate)
              × ((state ≡ kept_open)
                  ⊎ (let d = matched cfg req out plate in
                      IsEntitled cfg store req d.matched_plate d.matched_class d.combined_conf now
                        local))))
  unfolding decide_on denied_with
  decide_on_iff cfg store kept_closed req best out now local =
      (λ h. ground arith, λ h. absurd (h.0 refl))
  decide_on_iff cfg store kept_open req none out now local = (λ h. ground arith, λ h. ground arith)
  decide_on_iff cfg store no_override req none out now local =
      (λ h. ground arith, λ h. ground arith)
  decide_on_iff cfg store kept_open req (some plate) out now local =
      let (to, from) =
        judge_iff cfg store kept_open req _ _ (matched cfg req out plate) now local in
      (λ h. (λ e. ground arith, (plate, refl, to h)), λ h. ground (arith, from))
  decide_on_iff cfg store no_override req (some plate) out now local =
      let (to, from) =
        judge_iff cfg store no_override req _ _ (matched cfg req out plate) now local in
      (λ h. (λ e. ground arith, (plate, refl, to h)), λ h. ground (arith, from))

  -- A frame is authorized exactly if its gate is not force-closed, a plate was found, and the gate is
  -- force-open or the plate is entitled: the combined confidence is not below the threshold, the plate
  -- is not blocklisted, and a guard vouches for it or its allowlist entry grants entry now.
  pub decide_at-IsAuthorized :
      (cfg : FusionConfig F) (store : Store) (overrides : Overrides) (req : AuthorizeRequest F)
      (now : ℕ) (local : LocalTime)
      → ((decide_at cfg store overrides req now local).verdict ≡ authorized)
        ↔ GetsIn cfg store overrides req now local
  unfolding decide_at matched
  decide_at-IsAuthorized cfg store overrides req now local =
      let (to, from) =
        decide_on_iff cfg store (override_for overrides req.gate_id) req
          (pick_best F (λ p. p.detection_conf) req.plates) _ now local in
      (
        λ h.
            let (c, (p, b, a)) = to h in
            record { not_closed = c; plate = p; best = b; allowed = a },
        λ g. from (g.not_closed, (g.plate, g.best, g.allowed)),
      )

  judge-reason :
      (cfg : FusionConfig F) (store : Store) (state : OverrideState) (req : AuthorizeRequest F)
      (alpr lidar : F.Float) (out : AuthDecision F) (now : ℕ) (local : LocalTime)
      → out.deny_reason ≡ no_reason
      → let d = judge cfg store state req alpr lidar out now local in
        (d.deny_reason ≡ no_reason) ↔ (d.verdict ≡ authorized)
  unfolding judge check_entry denied_with
  judge-reason cfg store state req alpr lidar out now local h =
      elim (store.lookup req.site_id out.matched_plate) [
        | none ↦ (ground arith, ground arith)
        | some e ↦ (ground arith, ground arith)
      ]

  decide_on-reason :
      (cfg : FusionConfig F) (store : Store) (state : OverrideState) (req : AuthorizeRequest F)
      (best : Option (PlateDetection F)) (out : AuthDecision F) (now : ℕ) (local : LocalTime)
      → out.deny_reason ≡ no_reason
      → let d = decide_on cfg store state req best out now local in
        (d.deny_reason ≡ no_reason) ↔ (d.verdict ≡ authorized)
  unfolding decide_on denied_with matched
  decide_on-reason cfg store kept_closed req best out now local h = (ground arith, ground arith)
  decide_on-reason cfg store kept_open req none out now local h = (ground arith, ground arith)
  decide_on-reason cfg store no_override req none out now local h = (ground arith, ground arith)
  decide_on-reason cfg store kept_open req (some plate) out now local h =
      judge-reason cfg store kept_open req _ _ _ now local h
  decide_on-reason cfg store no_override req (some plate) out now local h =
      judge-reason cfg store no_override req _ _ _ now local h

  -- A decision carries no reason to deny exactly if it authorizes.
  pub deny_reason-decide_at :
      (cfg : FusionConfig F) (store : Store) (overrides : Overrides) (req : AuthorizeRequest F)
      (now : ℕ) (local : LocalTime)
      → let d = decide_at cfg store overrides req now local in
        (d.deny_reason ≡ no_reason) ↔ (d.verdict ≡ authorized)
  unfolding decide_at
  deny_reason-decide_at cfg store overrides req now local =
      decide_on-reason cfg store (override_for overrides req.gate_id) req _ _ now local refl
