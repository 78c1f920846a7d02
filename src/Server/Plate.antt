-- ===== src/Server/Plate.antt =====
-- `normalize_plate` of allowlist_store.cpp. A text is the list of its bytes.
use alpr_li_dar_gate_automat.Base.{
  All, Bool, List, [], arith, false, if◌then◌else◌, leb, refl, subst, ℕ, ◌&&◌, ◌-◌, ◌==◌, ◌||◌, ◌∷◌,
  ◌≡◌,
}

abbrev pub is_separator : ℕ → Bool
is_separator u = u == b' ' || (u == 9 || (u == b'-' || u == b'_'))

abbrev pub is_lower : ℕ → Bool
is_lower u = leb b'a' u && leb u b'z'

abbrev pub upper : ℕ → ℕ
upper u = if is_lower u then u - 32 else u

unfoldable pub normalize_plate : List ℕ → List ℕ
normalize_plate [] = []
normalize_plate (u ∷ raw) =
    let out = normalize_plate raw in if is_separator u then out else upper u ∷ out

-- No separator and no lower-case letter.
abbrev pub IsCanonical : List ℕ → Type 0
IsCanonical = All (λ u. (is_separator u ≡ false) × (is_lower u ≡ false))

normalize_plate-IsCanonical : (raw : List ℕ) → IsCanonical (normalize_plate raw)
unfolding normalize_plate
normalize_plate-IsCanonical [] = tt
normalize_plate-IsCanonical (u ∷ raw) = ground (arith, normalize_plate-IsCanonical raw)

normalize_canonical : (t : List ℕ) → IsCanonical t → normalize_plate t ≡ t
unfolding normalize_plate
normalize_canonical [] c = refl
normalize_canonical (u ∷ t) c = ground (arith, normalize_canonical t c.1)

-- Normalisation gives a canonical text, and the canonical texts are exactly those that it leaves
-- alone; so normalising twice is normalising once.
pub normalize_plate_lem :
    (raw : List ℕ)
    → IsCanonical (normalize_plate raw)
      × (normalize_plate (normalize_plate raw) ≡ normalize_plate raw)
      × (normalize_plate raw ≡ raw → IsCanonical raw)
normalize_plate_lem raw =
    let c = normalize_plate-IsCanonical raw in
    (c, normalize_canonical (normalize_plate raw) c, λ e. subst IsCanonical e c)
