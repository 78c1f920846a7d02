-- ===== src/Ota/Updater/Chunks.antt =====
-- The read-back of the image in chunks.
use alpr_li_dar_gate_automat.Base.{
  if_false, if_true, not, ℕ, zero, suc, List, [], ◌∷◌, ◌++◌, Option, none, some, ◌≡◌, refl, sym, ap,
  ◌∙◌, ◌+◌, ◌-◌, ◌<◌, ◌≤◌, ◌⊎◌, inl, inr, false, if◌then◌else◌, ltb, take, drop, Bool-cases,
  Option-cases, arith,
}
use alpr_li_dar_gate_automat.Ota.Updater.{
  Libraries, Attempt, readback_loop, readback_sha256, readback_failed, verify_memory,
  readback_chunk,
}

take_nil : {A : Type 0} (n : ℕ) → ◌≡◌ {A = List A} [] (take n [])
take_nil zero = refl
take_nil (suc n) = refl

take-split :
    {A : Type 0} (off n : ℕ) (c : List A) → take off c ++ take n (drop off c) ≡ take (off + n) c
take-split zero n c = let same : n ≡ 0 + n = omega arith in ap (λ k. take k c) same
take-split (suc off) zero [] = take_nil (suc off + 0)
take-split (suc off) (suc n) [] = take_nil (suc off + suc n)
take-split (suc off) n (x ∷ c) =
    let same : suc (off + n) ≡ suc off + n = omega arith in
    ap (λ r. x ∷ r) (take-split off n c) ∙ ap (λ k. take k (x ∷ c)) same

-- A hash of a stream: it depends on the bytes alone, not on where they are cut.
pub record IsStreaming (L : Libraries) : Type 0 where
  pub absorbs :
      (st : L.Hash) (s t : List ℕ)
      → L.sha256_update (L.sha256_update st s) t ≡ L.sha256_update st (s ++ t)
  pub absorbs_nil : (st : L.Hash) → L.sha256_update st [] ≡ st

-- A read that succeeds gives the bytes that the partition holds.
abbrev pub Holds : (ℕ → ℕ → Option (List ℕ)) → List ℕ → Type 0
Holds read flash =
    (off n : ℕ) (buf : List ℕ) → read off n ≡ some buf → buf ≡ take n (drop off flash)

abbrev pub sha256 : (L : Libraries) → List ℕ → List ℕ
sha256 L bytes = L.sha256_final (L.sha256_update L.sha256_init bytes)

-- A read that fails within the first `len` bytes.
abbrev pub FailsWithin : (ℕ → ℕ → Option (List ℕ)) → ℕ → Type 0
FailsWithin read len = (off : ℕ) × (n : ℕ) × (read off n ≡ none) × (0 < n) × (off + n ≤ len)

-- The bytes of the next pass.
abbrev chunk : ℕ → ℕ → ℕ
chunk len off = if ltb (len - off) readback_chunk then len - off else readback_chunk

chunk_pos : (len off : ℕ) → off < len → 0 < chunk len off
chunk_pos len off more = ground arith

chunk_fits : (len off : ℕ) → off ≤ len → off + chunk len off ≤ len
chunk_fits len off low = ground arith

module _ (L : Libraries) (streaming : IsStreaming L) (flash : List ℕ) where
  hashed : ℕ → L.Hash
  hashed off = L.sha256_update L.sha256_init (take off flash)

  hashed-step :
      (off n : ℕ) (buf : List ℕ)
      → buf ≡ take n (drop off flash)
      → L.sha256_update (hashed off) buf ≡ hashed (off + n)
  unfolding hashed
  hashed-step off n buf e =
      streaming.absorbs L.sha256_init (take off flash) buf
      ∙ ap (λ b. L.sha256_update L.sha256_init (take off flash ++ b)) e
      ∙ ap (L.sha256_update L.sha256_init) (take-split off n flash)

  readback_loop_lem :
      (read : ℕ → ℕ → Option (List ℕ)) (fuel len off : ℕ)
      → Holds read flash
      → off ≤ len
      → len ≤ off + fuel
      → (readback_loop L read fuel len off (hashed off) ≡ inr (hashed len))
        ⊎ ((readback_loop L read fuel len off (hashed off) ≡ inl readback_failed)
            × FailsWithin read len)
  unfolding readback_loop
  readback_loop_lem read zero len off held low enough =
      let (at_end, same) : (ltb off len ≡ false) × (off ≡ len) = (ground arith, omega arith) in
      inl (if_false _ _ at_end ∙ ap (λ n. inr (hashed n)) same)
  readback_loop_lem read (suc fuel) len off held low enough =
      let n = chunk len off in
      elim (Bool-cases (ltb off len)) [
        | inr over ↦
            let same : off ≡ len = ground (arith, over) in
            inl (if_true _ _ (ap not over) ∙ ap (λ n. inr (hashed n)) same)
        | inl more ↦ elim (Option-cases (read off n)) [
          | inl fails ↦ inr (
            if_false _ _ (ap not more) ∙ rw fails refl,
            (off, n, fails, chunk_pos len off (ground arith), chunk_fits len off low),
          )
          | inr (buf, e) ↦
              let step : readback_loop L read (suc fuel) len off (hashed off)
                  ≡ readback_loop L read fuel len (off + n) (hashed (off + n)) =
                (if_false _ _ (ap not more)
                  ∙ rw e refl
                  ∙ ap (readback_loop L read fuel len (off + n))
                      (hashed-step off n buf (held off n buf e))) in
              let rest =
                readback_loop_lem read fuel len (off + n) held (chunk_fits len off low)
                  (ground (arith, chunk_pos len off)) in
              elim rest [ inl r ↦ inl (step ∙ r) | inr (r, f) ↦ inr (step ∙ r, f) ]
        ]
      ]

-- With a streaming hash and a partition that gives back what it holds, the read-back ends: it has
-- the hash of the first `len` bytes, or it found no memory, or a read within those bytes failed.
pub readback_sha256_lem :
    (L : Libraries) (streaming : IsStreaming L) (flash : List ℕ) (a : Attempt) (len : ℕ)
    → Holds a.read flash
    → (readback_sha256 L a len ≡ inr (sha256 L (take len flash)))
      ⊎ ((readback_sha256 L a len ≡ inl verify_memory) × (a.chunk_heap ≡ false))
      ⊎ ((readback_sha256 L a len ≡ inl readback_failed) × FailsWithin a.read len)
unfolding readback_sha256 hashed
readback_sha256_lem L streaming flash a len held = elim (Bool-cases a.chunk_heap) [
  | inr full ↦ inr (inl (if_true _ _ (ap not full), full))
  | inl room ↦
      let loop : (st : L.Hash)
          → st ≡ hashed L streaming flash 0
          → (readback_loop L a.read len len 0 st ≡ inr (hashed L streaming flash len))
            ⊎ ((readback_loop L a.read len len 0 st ≡ inl readback_failed)
                × FailsWithin a.read len) =
        λ st e.
          rw e (
            readback_loop_lem L streaming flash a.read len len 0 held (omega arith)
              (omega arith)) in
      elim (loop L.sha256_init (sym (streaming.absorbs_nil L.sha256_init))) [
        | inl r ↦ inl (if_false _ _ (ap not room) ∙ rw r refl)
        | inr (r, f) ↦ inr (inr (if_false _ _ (ap not room) ∙ rw r refl, f))
      ]
]
