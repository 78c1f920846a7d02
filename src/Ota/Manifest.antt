-- ===== src/Ota/Manifest.antt =====
-- ota_manifest.cpp: hex decoding and the rules that accept a manifest. A C string is the list of
-- its bytes before the NUL; an output array counts only where decoding succeeds.
use alpr_li_dar_gate_automat.Base.{
  ℕ, zero, suc, Bool, true, false, not, List, [], ◌∷◌, Option, none, some, if◌then◌else◌, leb, ltb,
  ◌&&◌, ◌||◌, ◌==◌, ◌+◌, ◌*◌, ◌-◌,
}
pub mod Hex
pub mod Rules

-- `none` is -1.
unfoldable pub hex_nibble : ℕ → Option ℕ
hex_nibble c =
    if leb b'0' c && leb c b'9'
    then some (c - b'0')
    else if leb b'a' c && leb c b'f'
    then some (c - b'a' + 10)
    else if leb b'A' c && leb c b'F'
    then some (c - b'A' + 10)
    else none

-- `(hi << 4) | lo`, of two nibbles.
abbrev pub join : Option ℕ → Option ℕ → Option ℕ
join (some hi) (some lo) = some (hi * 16 + lo)
join _ _ = none

abbrev pub keep : Option ℕ → Option (List ℕ) → Option (List ℕ)
keep (some b) (some bytes) = some (b ∷ bytes)
keep _ _ = none

unfoldable pub decode_bytes : List ℕ → ℕ → Option (List ℕ)
decode_bytes [] zero = some []
decode_bytes (c ∷ _) zero = none
decode_bytes (h ∷ l ∷ text) (suc n) =
    keep (join (hex_nibble h) (hex_nibble l)) (decode_bytes text n)
decode_bytes _ (suc n) = none

-- `none` for the text is the null pointer.
unfoldable pub hex_decode : Option (List ℕ) → ℕ → Option (List ℕ)
hex_decode none out_len = none
hex_decode (some hex) out_len = decode_bytes hex out_len

pub record Manifest : Type 0 where
  pub target_version : List ℕ
  pub image_url : List ℕ
  pub image_size : ℕ  -- uint32
  pub image_sha256 : List ℕ
  pub has_sha256 : Bool
  pub signature : List ℕ
  pub has_signature : Bool
  pub signing_key_id : List ℕ
  pub min_uptime_sec : ℕ  -- uint32

-- The texts that `validate` returns, in its order.
pub data Rejection : Type 0 where
  version_missing same_version url_not_http size_missing : Rejection
  image_too_large sha256_missing signature_missing uptime_too_short : Rejection

-- `strcmp(s, t) == 0`.
unfoldable pub same_text : List ℕ → List ℕ → Bool
same_text [] [] = true
same_text (a ∷ s) (b ∷ t) = (a == b) && same_text s t
same_text _ _ = false

-- `strncmp(s, prefix, strlen(prefix)) == 0`.
unfoldable pub starts_with : List ℕ → List ℕ → Bool
starts_with s [] = true
starts_with [] (p ∷ ps) = false
starts_with (a ∷ s) (p ∷ ps) = (a == p) && starts_with s ps

abbrev pub http : List ℕ
http = b'h' ∷ b't' ∷ b't' ∷ b'p' ∷ b':' ∷ b'/' ∷ b'/' ∷ []

abbrev pub https : List ℕ
https = b'h' ∷ b't' ∷ b't' ∷ b'p' ∷ b's' ∷ b':' ∷ b'/' ∷ b'/' ∷ []

-- `none` is the null pointer: accepted.
unfoldable pub validate : Manifest → List ℕ → ℕ → ℕ → Option Rejection
validate m running_version partition_size uptime_sec =
    if same_text m.target_version []
    then some version_missing
    else if same_text m.target_version running_version
    then some same_version
    else if not (starts_with m.image_url http) && not (starts_with m.image_url https)
    then some url_not_http
    else if m.image_size == 0
    then some size_missing
    else if ltb partition_size m.image_size
    then some image_too_large
    else if not m.has_sha256
    then some sha256_missing
    else if not m.has_signature
    then some signature_missing
    else if ltb uptime_sec m.min_uptime_sec
    then some uptime_too_short
    else none
