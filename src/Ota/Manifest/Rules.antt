-- ===== src/Ota/Manifest/Rules.antt =====
-- The rules that accept a manifest.
use alpr_li_dar_gate_automat.Base.{
  ℕ, true, List, [], ◌∷◌, ◌++◌, none, arith, refl, ◌≡◌, ◌≢◌, ◌<◌, ◌≤◌, ◌↔◌, ◌⊎◌,
}
use alpr_li_dar_gate_automat.Ota.Manifest.{Manifest, validate, same_text, starts_with, http, https}

same_text_iff : (s t : List ℕ) → (same_text s t ≡ true) ↔ (s ≡ t)
unfolding same_text
same_text_iff [] [] = (λ h. refl, λ h. refl)
same_text_iff [] (b ∷ t) = (ground arith, ground arith)
same_text_iff (a ∷ s) [] = (ground arith, ground arith)
same_text_iff (a ∷ s) (b ∷ t) =
    let (to, from) = same_text_iff s t in (ground (arith, to), ground (arith, from))

abbrev pub Extends : List ℕ → List ℕ → Type 0
Extends s prefix = (rest : List ℕ) × (s ≡ prefix ++ rest)

starts_with_iff : (s p : List ℕ) → (starts_with s p ≡ true) ↔ Extends s p
unfolding starts_with
starts_with_iff s [] = (λ h. (s, refl), λ h. refl)
starts_with_iff [] (b ∷ p) = (ground arith, λ (r, e). ground arith)
starts_with_iff (a ∷ s) (b ∷ p) =
    let (to, from) = starts_with_iff s p in
    (
      λ h. let (r, e) = to (ground arith) in (r, ground (arith, e)),
      λ (r, e). ground (arith, from (r, ground (arith, e))),
    )

-- A manifest that a device with this version, partition and uptime should install.
pub record IsAcceptable (m : Manifest) (running : List ℕ) (partition uptime : ℕ) : Type 0 where
  pub named : m.target_version ≢ []
  pub is_new : m.target_version ≢ running
  pub by_http : Extends m.image_url http ⊎ Extends m.image_url https
  pub has_size : 0 < m.image_size
  pub fits : m.image_size ≤ partition
  pub hashed : m.has_sha256 ≡ true
  pub signed : m.has_signature ≡ true
  pub long_up : m.min_uptime_sec ≤ uptime

-- A manifest is accepted exactly if it names another version than the running one, has an http or
-- https address, a size that is not zero and fits the partition, a hash and a signature, and asks
-- for no more uptime than there is.
pub validate_lem :
    (m : Manifest) (running : List ℕ) (partition uptime : ℕ)
    → (validate m running partition uptime ≡ none) ↔ IsAcceptable m running partition uptime
unfolding validate
validate_lem m running partition uptime =
    let (et, ef) = same_text_iff m.target_version [] in
    let (st, sf) = same_text_iff m.target_version running in
    let (ht, hf) = starts_with_iff m.image_url http in
    let (gt, gf) = starts_with_iff m.image_url https in
    (ground (arith, ef, sf, ht, gt), ground (arith, et, st, hf, gf))
