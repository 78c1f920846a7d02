-- ===== src/Ota/Updater/Progress.antt =====
-- The percentages that the download reports.
use native.Mathlib.Nat.{div-le_of_le-mul, div-mul-le_self, le-div_iff_mul-le}
use alpr_li_dar_gate_automat.Base.{
  holds_if, if◌then◌else◌, subst, ℕ, true, List, [], ◌∷◌, map, length, ◌≡◌, ◌+◌, ◌*◌, ◌/◌, ◌<◌, ◌≤◌,
  refl, arith, ◌==◌, ap, ◌∙◌, sym,
}
use alpr_li_dar_gate_automat.Ota.Updater.{Call, progress, percent, download}

-- Lengths that only grow, from `prev` on, and stay within the size.
abbrev pub Grows : ℕ → ℕ → List ℕ → Type 0
Grows size prev [] = Unit
Grows size prev (got ∷ lengths) = (prev ≤ got) × (got ≤ size) × Grows size got lengths

-- Percentages up to 100, each of a later tenth than the one before.
abbrev pub Rises : ℕ → List ℕ → Type 0
Rises tenth [] = Unit
Rises tenth (p ∷ ps) = (tenth < p / 10) × (p ≤ 100) × Rises (p / 10) ps

abbrev pub latest : ℕ → List ℕ → ℕ
latest n [] = n
latest n (m ∷ ms) = latest m ms

-- The tenth of the last percentage.
abbrev pub reached : ℕ → List ℕ → ℕ
reached tenth [] = tenth
reached tenth (p ∷ ps) = reached (p / 10) ps

Rises-length : (tenth : ℕ) (ps : List ℕ) → Rises tenth ps → tenth ≤ 10 → tenth + length ps ≤ 10
Rises-length tenth [] h low = omega arith
Rises-length tenth (p ∷ ps) (later, most, rest) low =
    let t : p / 10 ≤ 10 = omega arith in omega (arith, Rises-length (p / 10) ps rest t)

div_mono : (k a b : ℕ) → 0 < k → a ≤ b → a / k ≤ b / k
div_mono k a b pos le = (le-div_iff_mul-le pos).1 (omega (arith, div-mul-le_self a k))

percent_exact : (size got : ℕ) → 0 < size → got ≤ size → percent size got ≡ got * 100 / size
unfolding percent
percent_exact size got pos le =
    let most : got * 100 / size ≤ 100 = div-le_of_le-mul size (omega arith) in omega (arith, most)

-- The loop, with its tenth that of the length before.
abbrev Reports : ℕ → ℕ → ℕ → List ℕ → List Call → Type 0
Reports size tenth prev lengths calls =
    (ps : List ℕ) × (calls ≡ map progress ps)
    × Rises tenth ps
    × (reached tenth ps ≡ percent size (latest prev lengths) / 10)

download-Reports :
    (size tenth prev : ℕ) (lengths : List ℕ)
    → 0 < size
    → Grows size prev lengths
    → prev ≤ size
    → tenth ≡ percent size prev / 10
    → Reports size tenth prev lengths (download true size tenth lengths)
unfolding download
download-Reports size tenth prev [] pos grows fits t = ([], refl, tt, t)
download-Reports size tenth prev (got ∷ lengths) pos (up, le, rest) fits t =
    let pct = percent size got in
    let tens = percent size got / 10 in
    let next = if tens == tenth then tenth else tens in
    let up_to : tenth ≤ tens =
      rw (t, percent_exact size got pos le, percent_exact size prev pos fits)
        (div_mono 10 _ _ (omega arith) (div_mono size _ _ pos (omega (arith, up)))) in
    let most : percent size got ≤ 100 =
      rw (percent_exact size got pos le) (div-le_of_le-mul size (omega arith)) in
    let same : next ≡ tens = ground arith in
    let (ps, e, rises, r) =
      subst (λ n. Reports size tens got lengths (download true size n lengths)) (sym same)
        (download-Reports size tens got lengths pos rest le refl) in
    holds_if (Reports size tenth prev (got ∷ lengths)) (tens == tenth)
      (λ h.
        let eq : tens ≡ tenth = ground (arith, h) in
        (ps, e, subst (λ n. Rises n ps) eq rises, sym (ap (λ n. reached n ps) eq) ∙ r))
      (λ h. (
        percent size got ∷ ps,
        ap (λ c. progress (percent size got) ∷ c) e,
        (ground (arith, h, up_to), most, rises),
        r,
      ))

-- While the image arrives, its lengths only growing and within its size, the percentages reported
-- are at most ten, each at most 100 and of a later tenth than the one before, and the last is of the
-- tenth that was reached.
pub download_lem :
    (size : ℕ) (lengths : List ℕ)
    → 0 < size
    → Grows size 0 lengths
    → (ps : List ℕ) × (download true size 0 lengths ≡ map progress ps)
      × Rises 0 ps
      × (length ps ≤ 10)
      × (reached 0 ps ≡ percent size (latest 0 lengths) / 10)
download_lem size lengths pos grows =
    let none_read : percent size 0 ≤ 0 =
      rw (percent_exact size 0 pos (omega arith)) (div-le_of_le-mul size (omega arith)) in
    let zero_percent : 0 ≡ percent size 0 / 10 = omega (arith, none_read) in
    let (ps, e, rises, r) =
      download-Reports size 0 0 lengths pos grows (omega arith) zero_percent in
    (ps, e, rises, omega (arith, Rises-length 0 ps rises (omega arith)), r)
