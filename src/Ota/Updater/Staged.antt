-- ===== src/Ota/Updater/Staged.antt =====
-- What has been checked when an update is staged.
use alpr_li_dar_gate_automat.Base.{
  ap, subst, ◌∙◌, Option-cases, ℕ, true, Bool, none, some, List, [], ◌∷◌, ◌≡◌, ◌⊎◌, inl, inr, ◌/◌,
  ◌%◌, take, u32_mod, bytes_eq_refl, bytes_eq-≡, refl, arith,
}
use alpr_li_dar_gate_automat.Ota.Manifest.{Manifest, hex_decode, validate}
use alpr_li_dar_gate_automat.Ota.Manifest.Rules.{IsAcceptable, validate_lem}
use alpr_li_dar_gate_automat.Ota.Updater.{
  Libraries, Config, Attempt, fetch_json, parse_manifest, readback_sha256, check_key, check_image,
  install, accept, run_inner,
}
use alpr_li_dar_gate_automat.Ota.Updater.Chunks.{
  FailsWithin, IsStreaming, Holds, sha256, readback_sha256_lem,
}

-- The signature over the digest verifies under the key that is provisioned, if one is.
pub record IsSigned (L : Libraries) (pubkey_hex : List ℕ) (m : Manifest) : Type 0 where
  pub key : List ℕ
  pub decodes : hex_decode (some pubkey_hex) 32 ≡ some key
  pub verifies : L.verify_detached m.signature m.image_sha256 key ≡ true

-- The manifest `m` came from the server, is acceptable here, and its hash and signature are those
-- of the bytes `flash` of the partition.
pub record IsStaged (L : Libraries) (cfg : Config) (a : Attempt) (flash : List ℕ) (m : Manifest)
    : Type 0 where
  pub json : List ℕ
  pub fetched : fetch_json a ≡ inr json
  pub parsed : parse_manifest L json ≡ inr m
  pub size : ℕ
  pub partition : a.partition_size ≡ some size
  pub acceptable : IsAcceptable m cfg.running_version size (a.time_us / 1_000_000 % u32_mod)
  pub received : (a.begun ≡ true) × (a.performed ≡ true) × (a.complete ≡ true)
  pub hashed : sha256 L (take m.image_size flash) ≡ m.image_sha256
  pub signed : (cfg.pubkey_hex ≡ []) ⊎ IsSigned L cfg.pubkey_hex m
  pub booted : a.finishes ≡ true

empty-cases : (s : List ℕ) → (s ≡ []) ⊎ ((c : ℕ) × (cs : List ℕ) × (s ≡ c ∷ cs))
empty-cases [] = inl refl
empty-cases (c ∷ cs) = inr (c, cs, refl)

Sum-cases : {A B : Type 0} (s : A ⊎ B) → ((a : A) × (s ≡ inl a)) ⊎ ((b : B) × (s ≡ inr b))
Sum-cases (inl a) = inl (a, refl)
Sum-cases (inr b) = inr (b, refl)

module _ (L : Libraries) (cfg : Config) (a : Attempt) where
  check_key-IsSigned :
      (m : Manifest)
      → check_key L cfg m m.image_sha256 ≡ none
      → (cfg.pubkey_hex ≡ []) ⊎ IsSigned L cfg.pubkey_hex m
  unfolding check_key
  check_key-IsSigned m h = elim (empty-cases cfg.pubkey_hex) [
    | inl e ↦ inl e
    | inr (c, cs, e) ↦ elim (Option-cases (hex_decode (some cfg.pubkey_hex) 32)) [
      | inl d ↦ ground (arith, d, e)
      | inr (key, d) ↦ inr (record { key = key; decodes = d; verifies = ground (arith, d, e) })
    ]
  ]

  check_image-none :
      (m : Manifest)
      → check_image L cfg a m ≡ none
      → (readback_sha256 L a m.image_size ≡ inr m.image_sha256)
        × (check_key L cfg m m.image_sha256 ≡ none)
  unfolding check_image
  check_image-none m h = elim (Sum-cases (readback_sha256 L a m.image_size)) [
    | inl (e, fails) ↦ ground (arith, fails)
    | inr (digest, r) ↦
        let same : digest ≡ m.image_sha256 = bytes_eq-≡ digest m.image_sha256 (ground (arith, r)) in
        let k : check_key L cfg m digest ≡ none = ground (arith, r) in
        (r ∙ ap inr same, subst (λ d. check_key L cfg m d ≡ none) same k)
  ]

  IsSigned-check_image :
      (m : Manifest)
      → readback_sha256 L a m.image_size ≡ inr m.image_sha256
      → (cfg.pubkey_hex ≡ []) ⊎ IsSigned L cfg.pubkey_hex m
      → check_image L cfg a m ≡ none
  unfolding check_image check_key
  IsSigned-check_image m r (inl e) = ground (arith, r, e, bytes_eq_refl m.image_sha256)
  IsSigned-check_image m r (inr signed) =
      ground (arith, r, signed.decodes, signed.verifies, bytes_eq_refl m.image_sha256)

  install-none :
      (listens : Bool) (m : Manifest)
      → (install L cfg listens a m).1 ≡ none
      → (a.begun ≡ true)
        × (a.performed ≡ true)
        × (a.complete ≡ true)
        × (check_image L cfg a m ≡ none)
        × (a.finishes ≡ true)
  unfolding install
  install-none listens m h = ground arith

  accept-none :
      (listens : Bool) (m : Manifest)
      → (accept L cfg listens a m).1 ≡ none
      → (size : ℕ) × (a.partition_size ≡ some size)
        × (validate m cfg.running_version size (a.time_us / 1_000_000 % u32_mod) ≡ none)
        × ((install L cfg listens a m).1 ≡ none)
  unfolding accept
  accept-none listens m h = elim (Option-cases a.partition_size) [
    | inl e ↦ ground (arith, e)
    | inr (size, e) ↦ (size, e, ground (arith, e), ground (arith, e))
  ]

  run_inner-none :
      (listens : Bool)
      → (run_inner L cfg listens a).1 ≡ none
      → (json : List ℕ) × (m : Manifest) × (fetch_json a ≡ inr json)
        × (parse_manifest L json ≡ inr m)
        × ((accept L cfg listens a m).1 ≡ none)
  unfolding run_inner
  run_inner-none listens h = elim (Sum-cases (fetch_json a)) [
    | inl (e, r) ↦ ground (arith, r)
    | inr (json, r) ↦ elim (Sum-cases (parse_manifest L json)) [
      | inl (e, q) ↦ ground (arith, r, q)
      | inr (m, q) ↦ (json, m, r, q, ground (arith, r, q))
    ]
  ]

-- With a streaming hash and a partition that gives back what it holds, an attempt that ends without
-- an error has staged an image: its manifest came from the server and is acceptable, all of it was
-- received, the first bytes of the partition, as many as the manifest says, have its hash, and its
-- signature verifies if a public key is provisioned.
pub run_inner-IsStaged :
    (L : Libraries) (cfg : Config) (listens : Bool) (a : Attempt) (flash : List ℕ)
    → IsStreaming L
    → Holds a.read flash
    → (run_inner L cfg listens a).1 ≡ none
    → (m : Manifest) × IsStaged L cfg a flash m
run_inner-IsStaged L cfg listens a flash streaming held h =
    let (json, m, fetched, parsed, accepted) = run_inner-none L cfg a listens h in
    let (size, partition, valid, installed) = accept-none L cfg a listens m accepted in
    let (begun, performed, complete, checked, finishes) =
      install-none L cfg a listens m installed in
    let (read, key) = check_image-none L cfg a m checked in
    (
      m,
      record {
        json = json;
        fetched = fetched;
        parsed = parsed;
        size = size;
        partition = partition;
        acceptable = (validate_lem m cfg.running_version size _).0 valid;
        received = (begun, performed, complete);
        hashed = elim (readback_sha256_lem L streaming flash a m.image_size held) [
          | inl r ↦ ground (arith, r, read)
          | inr (inl (r, _)) ↦ ground (arith, r, read)
          | inr (inr (r, _)) ↦ ground (arith, r, read)
        ];
        signed = check_key-IsSigned L cfg a m key;
        booted = finishes;
      },
    )

-- Conversely, an attempt whose image is such stages it, unless the device has no memory for the
-- read-back or a read of the partition within the image fails.
pub run_inner-staged :
    (L : Libraries) (cfg : Config) (listens : Bool) (a : Attempt) (flash : List ℕ) (m : Manifest)
    → IsStreaming L
    → Holds a.read flash
    → IsStaged L cfg a flash m
    → a.chunk_heap ≡ true
    → ¬ FailsWithin a.read m.image_size
    → (run_inner L cfg listens a).1 ≡ none
unfolding run_inner accept install
run_inner-staged L cfg listens a flash m streaming held staged heap readable =
    let valid = (validate_lem m cfg.running_version staged.size _).1 staged.acceptable in
    let read : readback_sha256 L a m.image_size ≡ inr m.image_sha256 =
      elim (readback_sha256_lem L streaming flash a m.image_size held) [
        | inl r ↦ r ∙ ap inr staged.hashed
        | inr (inl (_, e)) ↦ ground (arith, e, heap)
        | inr (inr (_, f)) ↦ absurd (readable f)
      ] in
    let (begun, performed, complete) = staged.received in
    let checked = IsSigned-check_image L cfg a m read staged.signed in
    let last : (install L cfg listens a m).1 ≡ none =
      ground (arith, begun, performed, complete, checked, staged.booted) in
    let second : (accept L cfg listens a m).1 ≡ none =
      ground (arith, staged.partition, valid, last) in
    ground (arith, staged.fetched, staged.parsed, second)
