-- ===== src/Scenarios/Login.antt =====
-- The administrator's login, with a key derivation that mixes nothing, and texts that are read laxly.
use alpr_li_dar_gate_automat.Dashboard.Auth.Texts.{IsByte}
use alpr_li_dar_gate_automat.Base.{
  All, suc, zero, ◌<◌, ℕ, true, List, [], ◌∷◌, some, ◌≡◌, ◌↔◌, refl, arith, bytes_eq, replicate,
}
use alpr_li_dar_gate_automat.Dashboard.Auth.{
  Openssl, AuthConfig, hash_password, stored_text, to_hex, to_string, verify_password,
  check_credentials, from_hex, scan_pairs, scan_item, skip_spaces, hex_value, stoul, stoul_signed,
  stoul_digits, digits_from,
}
use alpr_li_dar_gate_automat.Dashboard.Auth.Passwords.{
  IsMatch, verify_password_iff, check_credentials-hash_password,
}

abbrev openssl : Openssl
openssl = record { pbkdf2 = λ password salt n. replicate 32 7 }

abbrev salt : List ℕ
salt = replicate 16 5

abbrev stored : List ℕ
stored = stored_text (to_string 20) (to_hex salt) (to_hex (replicate 32 7))

abbrev config : AuthConfig
config = record {
  admin_user = b'a' ∷ [];
  password_hash = stored;
  jwt_secret = [];
  token_ttl_min = 480;
}

replicate-IsByte : (n b : ℕ) → b < 256 → All IsByte (replicate n b)
replicate-IsByte zero b h = tt
replicate-IsByte (suc n) b h = (h, replicate-IsByte n b h)

verify_password_iff_example :
    (verify_password openssl (b'p' ∷ []) stored ≡ true) ↔ IsMatch openssl (b'p' ∷ []) stored
verify_password_iff_example = verify_password_iff openssl (b'p' ∷ []) stored

check_credentials-hash_password_example :
    check_credentials openssl config (b'a' ∷ []) (b'p' ∷ []) ≡ bytes_eq (b'a' ∷ []) (b'a' ∷ [])
unfolding hash_password
check_credentials-hash_password_example =
    check_credentials-hash_password openssl salt (b'p' ∷ []) (b'a' ∷ []) 20 config (omega arith)
      (replicate-IsByte 16 5 (omega arith)) (omega arith, omega arith)
      (replicate-IsByte 32 7 (omega arith), refl) refl

-- Spaces before a pair are passed over, and read again for the next.
spaced_hex : from_hex (b' ' ∷ b' ' ∷ b'a' ∷ b'b' ∷ []) ≡ some (171 ∷ 171 ∷ [])
unfolding from_hex scan_pairs scan_item skip_spaces hex_value
spaced_hex = refl

trailing_letter : stoul (b'1' ∷ b'x' ∷ []) ≡ some 1
unfolding stoul stoul_signed stoul_digits digits_from skip_spaces
trailing_letter = refl
