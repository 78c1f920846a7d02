-- ===== src/Ota/Manifest/Hex.antt =====
-- Hex decoding against the printing of bytes in hex.
use alpr_li_dar_gate_automat.Base.{
  ℕ, zero, suc, List, [], ◌∷◌, Option, none, some, if◌then◌else◌, leb, ltb, arith, refl, ◌≡◌, ◌<◌,
  ◌↔◌, ◌&&◌, ◌+◌, ◌*◌, ◌/◌, ◌%◌, ◌-◌, length, All,
}
use alpr_li_dar_gate_automat.Ota.Manifest.{hex_nibble, join, keep, decode_bytes, hex_decode}

abbrev pub digit : ℕ → ℕ
digit n = if ltb n 10 then b'0' + n else b'a' + (n - 10)

abbrev pub hex_encode : List ℕ → List ℕ
hex_encode [] = []
hex_encode (b ∷ bytes) = digit (b / 16) ∷ digit (b % 16) ∷ hex_encode bytes

abbrev pub lower : ℕ → ℕ
lower c = if leb b'A' c && leb c b'F' then c + 32 else c

abbrev pub lower_text : List ℕ → List ℕ
lower_text [] = []
lower_text (c ∷ text) = lower c ∷ lower_text text

nibble_iff : (c n : ℕ) → (hex_nibble c ≡ some n) ↔ ((n < 16) × (lower c ≡ digit n))
unfolding hex_nibble
nibble_iff c n = (ground arith, ground arith)

join-inverse :
    (p q : Option ℕ) (b : ℕ)
    → join p q ≡ some b
    → (hi : ℕ) × ((lo : ℕ) × (p ≡ some hi) × (q ≡ some lo) × (b ≡ hi * 16 + lo))
join-inverse none q b h = ground arith
join-inverse (some hi) none b h = ground arith
join-inverse (some hi) (some lo) b h = (hi, (lo, refl, refl, ground arith))

join_iff :
    (h l b : ℕ)
    → (join (hex_nibble h) (hex_nibble l) ≡ some b)
      ↔ ((b < 256) × (lower h ≡ digit (b / 16)) × (lower l ≡ digit (b % 16)))
join_iff h l b = (
  λ e.
      let (hi, (lo, p, q, d)) = join-inverse (hex_nibble h) (hex_nibble l) b e in
      let (small, high) = (nibble_iff h hi).0 p in
      let (small', low) = (nibble_iff l lo).0 q in joined hi lo b d small small' high low,
  λ (s, p, q).
      let hi = (nibble_iff h (b / 16)).1 (omega arith, p) in
      let lo = (nibble_iff l (b % 16)).1 (omega arith, q) in ground (arith, hi, lo),
)
  where
    joined :
        (hi lo b : ℕ)
        → b ≡ hi * 16 + lo
        → hi < 16
        → lo < 16
        → lower h ≡ digit hi
        → lower l ≡ digit lo
        → (b < 256) × (lower h ≡ digit (b / 16)) × (lower l ≡ digit (b % 16))
    joined hi lo b d s t p q =
        let x : (b / 16 ≡ hi) = omega arith in
        let y : (b % 16 ≡ lo) = omega arith in (omega arith, rw (x, p), rw (y, q))

keep_iff :
    (o : Option ℕ) (r : Option (List ℕ)) (b : ℕ) (out : List ℕ)
    → (keep o r ≡ some (b ∷ out)) ↔ ((o ≡ some b) × (r ≡ some out))
keep_iff o r b out = (ground arith, ground arith)

decode_iff :
    (text : List ℕ) (n : ℕ) (out : List ℕ)
    → (decode_bytes text n ≡ some out)
      ↔ ((length out ≡ n) × All (λ b. b < 256) out × (lower_text text ≡ hex_encode out))
unfolding decode_bytes
decode_iff [] zero [] = (λ e. (refl, tt, refl), λ e. refl)
decode_iff [] zero (b ∷ out) = (ground arith, ground arith)
decode_iff (c ∷ text) zero [] = (ground arith, ground arith)
decode_iff (c ∷ text) zero (b ∷ out) = (ground arith, ground arith)
decode_iff [] (suc n) [] = (ground arith, ground arith)
decode_iff [] (suc n) (b ∷ out) = (ground arith, ground arith)
decode_iff (h ∷ []) (suc n) [] = (ground arith, ground arith)
decode_iff (h ∷ []) (suc n) (b ∷ out) = (ground arith, ground arith)
decode_iff (h ∷ l ∷ text) (suc n) [] = (ground arith, ground arith)
decode_iff (h ∷ l ∷ text) (suc n) (b ∷ out) =
    let (to, from) = decode_iff text n out in
    let (kt, kf) = keep_iff (join (hex_nibble h) (hex_nibble l)) (decode_bytes text n) b out in
    let (jt, jf) = join_iff h l b in
    (
      λ e.
          let (j, d) = kt e in
          let (s, p, q) = jt j in
          let (m, a, t) = to d in (ground (arith, m), (s, a), ground (arith, p, q, t)),
      λ (m, (s, a), t). kf (
        jf (s, ground (arith, t), ground (arith, t)),
        from (ground (arith, m), a, ground (arith, t)),
      ),
    )

-- Decoding gives `out` exactly if the text, with its letters in lower case, is the printing of `out`
-- in hex and `out` is as many bytes as were asked for; so it rejects every other text.
pub hex_decode_lem :
    (hex : List ℕ) (n : ℕ) (out : List ℕ)
    → (hex_decode (some hex) n ≡ some out)
      ↔ ((length out ≡ n) × All (λ b. b < 256) out × (lower_text hex ≡ hex_encode out))
unfolding hex_decode
hex_decode_lem hex n out = decode_iff hex n out
