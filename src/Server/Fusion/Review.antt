-- ===== src/Server/Fusion/Review.antt =====
-- When a guard is asked to review.
use alpr_li_dar_gate_automat.Base.{none, some, refl, arith, ℕ, false, Option, ◌≡◌, ◌↔◌, List}
use alpr_li_dar_gate_automat.Server.Plate.{normalize_plate}
use alpr_li_dar_gate_automat.Server.Allowlist.{
  is_allowed_now, class_allowed, LocalTime, VehicleClass, AllowlistEntry,
}
use alpr_li_dar_gate_automat.Server.Decision.{
  FloatApi, Store, OverrideState, kept_open, kept_closed, no_override, manual_review, FusionConfig,
  PlateDetection, AuthorizeRequest, AuthDecision,
}
use alpr_li_dar_gate_automat.Server.Fusion.{
  Overrides, override_for, pick_best, check_entry, denied_with, judge, matched, decide_on,
  lidar_side, blend, fold_alpr_confidence, decide_at, class_in_allowlist,
}

not_allowed :
    (e : AllowlistEntry) (cls : VehicleClass) (now : ℕ) (local : LocalTime)
    → class_in_allowlist e cls ≡ false
    → is_allowed_now e cls now local ≡ false
unfolding is_allowed_now class_allowed class_in_allowlist
not_allowed e cls now local h = ground (arith, h)

module _ {F : FloatApi} where
  -- A plate that passes the checks before the allowlist has an entry, and its class is not on it.
  pub record IsDoubtful (cfg : FusionConfig F) (store : Store) (req : AuthorizeRequest F)
      (plate : List ℕ) (cls : VehicleClass) (conf : F.Float) : Type 0 where
    pub confident : F.lt_float conf cfg.min_combined_threshold ≡ false
    pub not_blocklisted : store.is_blocklisted req.site_id plate ≡ false
    pub not_vouched : req.override_allowlist ≡ false
    pub entry : AllowlistEntry
    pub listed : store.lookup req.site_id plate ≡ some entry
    pub other_class : class_in_allowlist entry cls ≡ false

  check_entry_review :
      (out : AuthDecision F) (o : Option AllowlistEntry) (cls : VehicleClass) (now : ℕ)
      (local : LocalTime)
      → ((check_entry out o cls now local).verdict ≡ manual_review)
        ↔ ((e : AllowlistEntry) × (o ≡ some e) × (class_in_allowlist e cls ≡ false))
  unfolding check_entry denied_with
  check_entry_review out none cls now local = (λ h. ground arith, λ (e, h, _). ground arith)
  check_entry_review out (some e) cls now local =
      (λ h. (e, refl, ground arith), λ (e', h, a). ground (arith, not_allowed e cls now local))

  judge_review :
      (cfg : FusionConfig F) (store : Store) (req : AuthorizeRequest F) (alpr lidar : F.Float)
      (out : AuthDecision F) (now : ℕ) (local : LocalTime)
      → ((judge cfg store no_override req alpr lidar out now local).verdict ≡ manual_review)
        ↔ IsDoubtful cfg store req out.matched_plate out.matched_class out.combined_conf
  unfolding judge denied_with
  judge_review cfg store req alpr lidar out now local =
      let (to, from) =
        check_entry_review out (store.lookup req.site_id out.matched_plate) out.matched_class now
          local in
      (ground (arith, to), ground (arith, from))

  decide_on_review :
      (cfg : FusionConfig F) (store : Store) (state : OverrideState) (req : AuthorizeRequest F)
      (best : Option (PlateDetection F)) (out : AuthDecision F) (now : ℕ) (local : LocalTime)
      → ((decide_on cfg store state req best out now local).verdict ≡ manual_review) ↔ (
          (state ≡ no_override)
          × ((plate : PlateDetection F) × (best ≡ some plate)
              × (let d = matched cfg req out plate in
                  IsDoubtful cfg store req d.matched_plate d.matched_class d.combined_conf)))
  unfolding decide_on denied_with judge
  decide_on_review cfg store kept_closed req best out now local =
      (λ h. ground arith, λ h. ground arith)
  decide_on_review cfg store kept_open req none out now local =
      (λ h. ground arith, λ h. ground arith)
  decide_on_review cfg store kept_open req (some plate) out now local =
      (λ h. ground arith, λ h. ground arith)
  decide_on_review cfg store no_override req none out now local =
      (λ h. ground arith, λ h. ground arith)
  decide_on_review cfg store no_override req (some plate) out now local =
      let (to, from) = judge_review cfg store req _ _ (matched cfg req out plate) now local in
      (λ h. (refl, (plate, refl, to h)), λ h. ground (arith, from))

  -- What a request for review rests on.
  pub record NeedsReview (cfg : FusionConfig F) (store : Store) (overrides : Overrides)
      (req : AuthorizeRequest F) : Type 0 where
    pub not_overridden : override_for overrides req.gate_id ≡ no_override
    pub plate : PlateDetection F
    pub best : pick_best F (λ p. p.detection_conf) req.plates ≡ some plate
    pub doubtful :
        let side = lidar_side cfg (pick_best F (λ v. v.class_conf) req.vehicles) in
        IsDoubtful cfg store req
          (normalize_plate plate.plate_text)
          side.0
          (blend cfg (fold_alpr_confidence plate) side.1)

  -- A frame is put up for manual review exactly if no override is set and its plate, confident, not
  -- blocklisted and not vouched for, has an entry that does not name the vehicle's class, whatever the
  -- entry says of dates and hours.
  pub decide_at-manual_review :
      (cfg : FusionConfig F) (store : Store) (overrides : Overrides) (req : AuthorizeRequest F)
      (now : ℕ) (local : LocalTime)
      → ((decide_at cfg store overrides req now local).verdict ≡ manual_review)
        ↔ NeedsReview cfg store overrides req
  unfolding decide_at matched
  decide_at-manual_review cfg store overrides req now local =
      let (to, from) =
        decide_on_review cfg store (override_for overrides req.gate_id) req
          (pick_best F (λ p. p.detection_conf) req.plates) _ now local in
      (
        λ h.
            let (s, (p, b, d)) = to h in
            record { not_overridden = s; plate = p; best = b; doubtful = d },
        λ g. from (g.not_overridden, (g.plate, g.best, g.doubtful)),
      )
