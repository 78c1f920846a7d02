-- ===== src/Dashboard/Auth.antt =====
-- dashboard/backend/src/auth.cpp: the administrator's password and the session tokens. OpenSSL's key
-- derivation and jwt-cpp are parameters, what RAND_bytes draws is an argument; `stoul`, `sscanf` and
-- `to_string` are written out as far as they are used. A string is the list of its bytes.
use alpr_li_dar_gate_automat.Base.{
  ℕ, zero, suc, Bool, true, false, not, List, [], ◌∷◌, ◌++◌, Option, none, some, if◌then◌else◌, ltb,
  leb, ◌&&◌, ◌||◌, ◌==◌, ◌+◌, ◌*◌, ◌-◌, ◌/◌, ◌%◌, ◌^◌, length, bytes_eq,
}
pub mod Texts
pub mod Passwords

-- `PKCS5_PBKDF2_HMAC` with SHA-256 and a key of 32 bytes, by password, salt and iterations.
pub record Openssl : Type 0 where
  pub pbkdf2 : List ℕ → List ℕ → ℕ → List ℕ

pub record Claims : Type 0 where
  pub issuer : List ℕ
  pub subject : List ℕ
  pub issued_at : ℕ
  pub expires_at : ℕ

-- jwt-cpp with HS256: signing under a secret, and decoding with its checks under a secret, for an
-- issuer and at a time; `none` is an exception.
pub record Jwt : Type 0 where
  pub sign : List ℕ → Claims → List ℕ
  pub verify : List ℕ → List ℕ → ℕ → List ℕ → Option Claims

pub record AuthConfig : Type 0 where
  pub admin_user : List ℕ
  pub password_hash : List ℕ
  pub jwt_secret : List ℕ
  pub token_ttl_min : ℕ

abbrev pub key_bytes : ℕ
key_bytes = 32

-- "gate-dashboard" and "pbkdf2-sha256".
abbrev pub issuer_name : List ℕ
issuer_name =
    b'g' ∷ b'a' ∷ b't' ∷ b'e' ∷ b'-' ∷ b'd' ∷ b'a' ∷ b's' ∷ b'h' ∷ b'b' ∷ b'o' ∷ b'a' ∷ b'r' ∷ b'd'
    ∷ []

abbrev pub scheme_name : List ℕ
scheme_name =
    b'p' ∷ b'b' ∷ b'k' ∷ b'd' ∷ b'f' ∷ b'2' ∷ b'-' ∷ b's' ∷ b'h' ∷ b'a' ∷ b'2' ∷ b'5' ∷ b'6' ∷ []

abbrev pub is_empty : List ℕ → Bool
is_empty [] = true
is_empty (_ ∷ _) = false

-- "%02x" of a byte, one half after the other.
abbrev pub hex_digit : ℕ → ℕ
hex_digit n = if ltb n 10 then b'0' + n else b'a' + (n - 10)

unfoldable pub to_hex : List ℕ → List ℕ
to_hex [] = []
to_hex (b ∷ bytes) = hex_digit (b / 16) ∷ hex_digit (b % 16) ∷ to_hex bytes

abbrev pub is_space : ℕ → Bool
is_space c = (c == b' ') || (leb 9 c && leb c 13)

unfoldable pub skip_spaces : List ℕ → List ℕ
skip_spaces [] = []
skip_spaces (c ∷ s) = let rest = skip_spaces s in if is_space c then rest else c ∷ s

unfoldable pub hex_value : ℕ → Option ℕ
hex_value c =
    if leb b'0' c && leb c b'9'
    then some (c - b'0')
    else if leb b'a' c && leb c b'f'
    then some (c - b'a' + 10)
    else if leb b'A' c && leb c b'F'
    then some (c - b'A' + 10)
    else none

-- The byte that "%2x" reads of two characters at most, a sign among them; "0x" alone is a failure.
unfoldable pub scan_item : List ℕ → Option ℕ
scan_item [] = none
scan_item (c ∷ []) = hex_value c
scan_item (c ∷ d ∷ _) =
    if (c == b'+') || (c == b'-')
    then (elim (hex_value d) [
      | none ↦ none
      | some v ↦ some (if c == b'-' then (256 - v) % 256 else v)
    ])
    else elim (hex_value c) [
      | none ↦ none
      | some hi ↦
          if (c == b'0') && ((d == b'x') || (d == b'X'))
          then none
          else elim (hex_value d) [ none ↦ some hi | some lo ↦ some (hi * 16 + lo) ]
    ]

-- The loop of `from_hex`; `sscanf` passes over spaces, also beyond the pair of its position.
unfoldable pub scan_pairs : List ℕ → Option (List ℕ)
scan_pairs [] = some []
scan_pairs (c ∷ []) = none
scan_pairs (c ∷ d ∷ hex) =
    let rest = scan_pairs hex in
    elim (scan_item (skip_spaces (c ∷ d ∷ hex))) [
      | none ↦ none
      | some b ↦ elim rest [ none ↦ none | some bytes ↦ some (b ∷ bytes) ]
    ]

unfoldable pub from_hex : List ℕ → Option (List ℕ)
from_hex hex = if is_empty hex || not (length hex % 2 == 0) then none else scan_pairs hex

-- `to_string`; the number is fuel enough for its digits.
unfoldable pub decimal : ℕ → ℕ → List ℕ
decimal zero n = (b'0' + n) ∷ []
decimal (suc fuel) n =
    let front = decimal fuel (n / 10) in
    if ltb n 10 then (b'0' + n) ∷ [] else front ++ (b'0' + n % 10) ∷ []

unfoldable pub to_string : ℕ → List ℕ
to_string n = decimal n n

abbrev pub is_digit : ℕ → Bool
is_digit c = leb b'0' c && leb c b'9'

unfoldable pub digits_from : ℕ → List ℕ → ℕ
digits_from acc [] = acc
digits_from acc (c ∷ s) = if is_digit c then digits_from (acc * 10 + (c - b'0')) s else acc

-- `stoul` behind the sign; unsigned long has 64 bits, and a minus sign negates in them.
unfoldable pub stoul_digits : Bool → List ℕ → Option ℕ
stoul_digits negative [] = none
stoul_digits negative (c ∷ s) =
    let v = digits_from 0 (c ∷ s) in
    if not (is_digit c)
    then none
    else if not (ltb v (2 ^ 64))
    then none
    else some (if negative then (2 ^ 64 - v) % 2 ^ 64 else v)

unfoldable pub stoul_signed : List ℕ → Option ℕ
stoul_signed [] = none
stoul_signed (c ∷ s) =
    if c == b'-'
    then stoul_digits true s
    else if c == b'+'
    then stoul_digits false s
    else stoul_digits false (c ∷ s)

-- `none` is invalid_argument or out_of_range.
unfoldable pub stoul : List ℕ → Option ℕ
stoul s = stoul_signed (skip_spaces s)

-- The texts before and behind the first '$', as `find` and `substr` give them.
unfoldable pub cut : List ℕ → Option (List ℕ × List ℕ)
cut [] = none
cut (c ∷ s) =
    let rest = cut s in
    if c == b'$'
    then some ([], s)
    else elim rest [ none ↦ none | some (before, behind) ↦ some (c ∷ before, behind) ]

-- The text of a stored hash.
abbrev pub stored_text : List ℕ → List ℕ → List ℕ → List ℕ
stored_text iterations salt hash =
    scheme_name ++ (b'$' ∷ (iterations ++ (b'$' ∷ (salt ++ (b'$' ∷ hash)))))

-- `salt` is what RAND_bytes draws, 16 bytes; `none` is its failure, which is thrown.
unfoldable pub hash_password : Openssl → Option (List ℕ) → List ℕ → ℕ → Option (List ℕ)
hash_password lib none password iterations = none
hash_password lib (some salt) password iterations = some (
    stored_text (to_string iterations) (to_hex salt) (to_hex (lib.pbkdf2 password salt iterations)))

-- The end of `verify_password`, on the iterations, the salt and the hash.
unfoldable pub verify_key : Openssl → List ℕ → ℕ → Option (List ℕ) → Option (List ℕ) → Bool
verify_key lib password iterations (some salt) (some expected) =
    (length expected == key_bytes) && bytes_eq (lib.pbkdf2 password salt iterations) expected
verify_key lib password iterations _ _ = false

unfoldable pub verify_fields : Openssl → List ℕ → List ℕ → List ℕ → List ℕ → List ℕ → Bool
verify_fields lib password scheme iterations salt hash =
    if not (bytes_eq scheme scheme_name) then false else elim (stoul iterations) [
      | none ↦ false
      | some n ↦
          if (n == 0) || ltb 10_000_000 n
          then false
          else verify_key lib password n (from_hex salt) (from_hex hash)
    ]

unfoldable pub verify_password : Openssl → List ℕ → List ℕ → Bool
verify_password lib password stored = elim (cut stored) [
  | none ↦ false
  | some (scheme, s1) ↦ elim (cut s1) [
    | none ↦ false
    | some (iterations, s2) ↦ elim (cut s2) [
      | none ↦ false
      | some (salt, hash) ↦ verify_fields lib password scheme iterations salt hash
    ]
  ]
]

-- The constructor; `secret` is what RAND_bytes draws, 32 bytes, if it is asked.
unfoldable pub new_service : Option (List ℕ) → AuthConfig → Option AuthConfig
new_service secret cfg =
    if not (is_empty cfg.jwt_secret)
    then some cfg
    else elim secret [ none ↦ none | some buf ↦ some (record cfg { jwt_secret = to_hex buf }) ]

unfoldable pub check_credentials : Openssl → AuthConfig → List ℕ → List ℕ → Bool
check_credentials lib cfg user password =
    if is_empty cfg.password_hash || not (bytes_eq user cfg.admin_user)
    then false
    else verify_password lib password cfg.password_hash

-- Times are in seconds.
unfoldable pub issue_token : Jwt → AuthConfig → ℕ → List ℕ → List ℕ
issue_token jwt cfg now user = jwt.sign cfg.jwt_secret (record {
  issuer = issuer_name;
  subject = user;
  issued_at = now;
  expires_at = now + cfg.token_ttl_min * 60;
})

-- The subject; `none` is a token that is refused.
unfoldable pub verify_token : Jwt → AuthConfig → ℕ → List ℕ → Option (List ℕ)
verify_token jwt cfg now token = elim (jwt.verify cfg.jwt_secret issuer_name now token) [
  | none ↦ none
  | some claims ↦ some claims.subject
]
