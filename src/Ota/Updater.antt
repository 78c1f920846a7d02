-- ===== src/Ota/Updater.antt =====
-- ota_updater.cpp: one attempt to install an update. cJSON and libsodium are the parameter
-- `Libraries`; what the network, the flash and the update library answer in one attempt is an
-- `Attempt`. A C string is the list of its bytes before the NUL.
use alpr_li_dar_gate_automat.Base.{
  ℕ, zero, suc, Bool, true, false, not, List, [], ◌∷◌, ◌++◌, Option, none, some, if◌then◌else◌, ltb,
  ◌||◌, ◌==◌, ◌+◌, ◌*◌, ◌-◌, ◌/◌, ◌%◌, ◌⊎◌, inl, inr, take, bytes_eq, u32_mod,
}
use alpr_li_dar_gate_automat.Ota.Manifest.{Manifest, Rejection, hex_decode, validate}
pub mod Chunks
pub mod Staged
pub mod Calls
pub mod Progress
pub mod Exclusive

-- The members that are asked for: "target_version", "image_url", "signing_key_id", "image_size",
-- "min_uptime_sec", "image_sha256" and "ed25519_signature".
pub data Key : Type 0 where
  version_key url_key key_id_key size_key uptime_key sha256_key signature_key : Key

pub record Libraries : Type 1 where
  pub Json : Type 0
  pub Double : Type 0
  pub parse : List ℕ → Option Json
  -- A member that is a string, or a number.
  pub string_item : Json → Key → Option (List ℕ)
  pub number_item : Json → Key → Option Double
  pub is_positive : Double → Bool
  pub is_nonnegative : Double → Bool
  pub to_uint32 : Double → ℕ
  pub Hash : Type 0
  pub sha256_init : Hash
  pub sha256_update : Hash → List ℕ → Hash
  pub sha256_final : Hash → List ℕ
  -- A signature, a digest and a public key.
  pub verify_detached : List ℕ → List ℕ → List ℕ → Bool

-- The texts that `run_inner` returns. `no_fuel` is not one of them.
pub data UpdateError : Type 0 where
  client_init_failed connection_failed bad_status manifest_memory empty_response : UpdateError
  invalid_json no_partition : UpdateError
  rejected : Rejection → UpdateError
  begin_failed transfer_failed verify_memory readback_failed sha256_mismatch : UpdateError
  malformed_key signature_rejected finish_failed no_fuel : UpdateError

pub record Attempt : Type 0 where
  -- The client of the manifest: made, connected, its status, the heap, the body of the answer.
  pub client_made : Bool
  pub connected : Bool
  pub status : ℕ
  pub manifest_heap : Bool
  pub body : List ℕ
  -- The size of the passive partition, if there is one, and the microseconds since the boot.
  pub partition_size : Option ℕ
  pub time_us : ℕ
  -- `esp_https_ota_begin`, the lengths read at each `perform` that is in progress, and whether the
  -- last one is ESP_OK and all data received.
  pub begun : Bool
  pub lengths : List ℕ
  pub performed : Bool
  pub complete : Bool
  -- The heap, and `esp_partition_read` by offset and count.
  pub chunk_heap : Bool
  pub read : ℕ → ℕ → Option (List ℕ)
  pub finishes : Bool

-- `pubkey_hex` is empty for the null pointer too.
pub record Config : Type 0 where
  pub running_version : List ℕ
  pub pubkey_hex : List ℕ

-- What is done to the update library and the callbacks; `done none` reports success.
pub data Call : Type 0 where
  begin_ota : Call
  progress : ℕ → Call
  abort_ota finish_ota : Call
  done : Option UpdateError → Call

abbrev pub manifest_max : ℕ
manifest_max = 2_048

abbrev pub readback_chunk : ℕ
readback_chunk = 4_096

abbrev pub is_empty : List ℕ → Bool
is_empty [] = true
is_empty (_ ∷ _) = false

unfoldable pub fetch_json : Attempt → UpdateError ⊎ List ℕ
fetch_json a =
    let buf = take (manifest_max - 1) a.body in
    if not a.client_made
    then inl client_init_failed
    else if not a.connected
    then inl connection_failed
    else if not (a.status == 200)
    then inl bad_status
    else if not a.manifest_heap
    then inl manifest_memory
    else if is_empty buf
    then inl empty_response
    else inr buf

-- The new content of the array `dst` of `cap` bytes.
unfoldable pub copy_json_str : List ℕ → ℕ → Option (List ℕ) → List ℕ
copy_json_str dst cap none = dst
copy_json_str dst cap (some text) = take (cap - 1) text

-- The digits of `count` bytes; an array that is not filled is left empty.
unfoldable pub decoded : Option (List ℕ) → ℕ → List ℕ × Bool
decoded text count = elim (hex_decode text count) [
  | none ↦ ([], false)
  | some bytes ↦ (bytes, true)
]

module _ (L : Libraries) where
  unfoldable pub number : Option L.Double → (L.Double → Bool) → ℕ
  number none accepts = 0
  number (some d) accepts = if accepts d then L.to_uint32 d else 0

  unfoldable pub parse_manifest : List ℕ → UpdateError ⊎ Manifest
  parse_manifest json = elim (L.parse json) [
    | none ↦ inl invalid_json
    | some root ↦
        let sha = decoded (L.string_item root sha256_key) 32 in
        let sig = decoded (L.string_item root signature_key) 64 in
        inr (record {
          target_version = copy_json_str [] 24 (L.string_item root version_key);
          image_url = copy_json_str [] 128 (L.string_item root url_key);
          image_size = number (L.number_item root size_key) L.is_positive;
          image_sha256 = sha.0;
          has_sha256 = sha.1;
          signature = sig.0;
          has_signature = sig.1;
          signing_key_id = copy_json_str [] 32 (L.string_item root key_id_key);
          min_uptime_sec = number (L.number_item root uptime_key) L.is_nonnegative;
        })
  ]

  -- The loop of `readback_sha256` from the offset `off`.
  unfoldable pub readback_loop :
      (ℕ → ℕ → Option (List ℕ)) → ℕ → ℕ → ℕ → L.Hash → UpdateError ⊎ L.Hash
  readback_loop read zero len off st = if ltb off len then inl no_fuel else inr st
  readback_loop read (suc fuel) len off st =
      let n = if ltb (len - off) readback_chunk then len - off else readback_chunk in
      if not (ltb off len) then inr st else elim (read off n) [
        | none ↦ inl readback_failed
        | some buf ↦ readback_loop read fuel len (off + n) (L.sha256_update st buf)
      ]

  unfoldable pub readback_sha256 : Attempt → ℕ → UpdateError ⊎ List ℕ
  readback_sha256 a len =
      if not a.chunk_heap
      then inl verify_memory
      else elim (readback_loop a.read len len 0 L.sha256_init) [
        | inl e ↦ inl e
        | inr st ↦ inr (L.sha256_final st)
      ]

  -- Step 5.
  unfoldable pub check_key : Config → Manifest → List ℕ → Option UpdateError
  check_key cfg m digest =
      if is_empty cfg.pubkey_hex then none else elim (hex_decode (some cfg.pubkey_hex) 32) [
        | none ↦ some malformed_key
        | some pubkey ↦
            if L.verify_detached m.signature digest pubkey then none else some signature_rejected
      ]

  -- Steps 4 and 5.
  unfoldable pub check_image : Config → Attempt → Manifest → Option UpdateError
  check_image cfg a m = elim (readback_sha256 a m.image_size) [
    | inl e ↦ some e
    | inr digest ↦
        if bytes_eq digest m.image_sha256 then check_key cfg m digest else some sha256_mismatch
  ]

-- `got * 100 / image_size`, cast to a byte.
unfoldable pub percent : ℕ → ℕ → ℕ
percent size got = (got * 100 / size) % 256

-- The download loop; `listens` says that there is a progress callback.
unfoldable pub download : Bool → ℕ → ℕ → List ℕ → List Call
download listens size last_decile [] = []
download listens size last_decile (got ∷ lengths) =
    let pct = percent size got in
    let same = pct / 10 == last_decile in
    let rest = download listens size (if same then last_decile else pct / 10) lengths in
    if same then rest else if listens then progress pct ∷ rest else rest

module _ (L : Libraries) (cfg : Config) (listens : Bool) (a : Attempt) where
  -- Steps 3 to 6.
  unfoldable pub install : Manifest → List Call × Option UpdateError
  install m =
      let calls = begin_ota ∷ download listens m.image_size 0 a.lengths in
      if not a.begun
      then ([], some begin_failed)
      else if not a.performed || not a.complete
      then (calls ++ abort_ota ∷ [], some transfer_failed)
      else elim (check_image L cfg a m) [
        | some e ↦ (calls ++ abort_ota ∷ [], some e)
        | none ↦ (calls ++ finish_ota ∷ [], if a.finishes then none else some finish_failed)
      ]

  -- Step 2.
  unfoldable pub accept : Manifest → List Call × Option UpdateError
  accept m = elim a.partition_size [
    | none ↦ ([], some no_partition)
    | some size ↦ elim (validate m cfg.running_version size (a.time_us / 1_000_000 % u32_mod)) [
      | some r ↦ ([], some (rejected r))
      | none ↦ install m
    ]
  ]

  -- The calls that are made, and the error, if there is one.
  unfoldable pub run_inner : List Call × Option UpdateError
  run_inner = elim (fetch_json a) [
    | inl e ↦ ([], some e)
    | inr json ↦ elim (parse_manifest L json) [ inl e ↦ ([], some e) | inr m ↦ accept m ]
  ]

-- `has_done` and `has_progress` say that the callbacks given to `begin` are not empty.
pub record OtaUpdater : Type 0 where
  pub has_done : Bool
  pub has_progress : Bool
  pub running : Bool

pub data EspErr : Type 0 where
  esp_ok invalid_state no_mem : EspErr

-- `spawns` says that the task is created.
unfoldable pub begin : OtaUpdater → Bool → Bool → Bool → OtaUpdater × EspErr
begin u has_done has_progress spawns =
    if u.running
    then (u, invalid_state)
    else if not spawns
    then (record { has_done = has_done; has_progress = has_progress; running = false }, no_mem)
    else (record { has_done = has_done; has_progress = has_progress; running = true }, esp_ok)

unfoldable pub run : Libraries → Config → Attempt → OtaUpdater → OtaUpdater × List Call
run L cfg a u =
    let (calls, error) = run_inner L cfg u.has_progress a in
    (record u { running = false }, calls ++ (if u.has_done then done error ∷ [] else []))
