-- ===== src/Dashboard/Auth/Passwords.antt =====
-- The check of a password against a stored hash.
use alpr_li_dar_gate_automat.Base.{
  bytes_eq-≡, inl, inr, Option-cases, Option-cases, Option-cases, Option-cases, Option-cases,
  Option-cases, Option-cases, Option-cases, Option-cases, Option-cases, Option-cases, Option-cases,
  Option-cases, Option-cases, Option-cases, Option-cases, Option-cases, Option-cases, Option-cases,
  Option-cases, Option-cases, Option-cases, Option-cases, Option-cases, Option-cases, ℕ, true,
  false, List, ◌∷◌, ◌++◌, some, ◌≡◌, ◌↔◌, refl, ap, ◌∙◌, sym, arith, ◌<◌, ◌≤◌, length, All,
  bytes_eq, bytes_eq_refl, Option-cases,
}
use alpr_li_dar_gate_automat.Dashboard.Auth.{
  Openssl, AuthConfig, scheme_name, stored_text, key_bytes, cut, stoul, from_hex, to_hex, to_string,
  hash_password, verify_key, verify_fields, verify_password, check_credentials, is_empty,
}
use alpr_li_dar_gate_automat.Dashboard.Auth.Texts.{
  IsByte, IsPlain, cut_inverse, cut-append, decimal-IsPlain, to_hex-IsPlain, stoul-to_string,
  from_hex-to_hex,
}

-- The stored text names the scheme, between 1 and 10,000,000 iterations, a salt and a key of 32 bytes
-- in hex, and the key is that of the password.
pub record IsMatch (lib : Openssl) (password stored : List ℕ) : Type 0 where
  pub iterations_text : List ℕ
  pub salt_hex : List ℕ
  pub hash_hex : List ℕ
  pub made_of : stored ≡ stored_text iterations_text salt_hex hash_hex
  pub plain : All IsPlain iterations_text × All IsPlain salt_hex
  pub iterations : ℕ
  pub parsed : stoul iterations_text ≡ some iterations
  pub bounded : (0 < iterations) × (iterations ≤ 10_000_000)
  pub salt : List ℕ
  pub salted : from_hex salt_hex ≡ some salt
  pub keyed : from_hex hash_hex ≡ some (lib.pbkdf2 password salt iterations)
  pub sized : length (lib.pbkdf2 password salt iterations) ≡ key_bytes

verify_password-fields :
    (lib : Openssl) (password s s1 s2 a b c d : List ℕ)
    → cut s ≡ some (a, s1)
    → cut s1 ≡ some (b, s2)
    → cut s2 ≡ some (c, d)
    → verify_password lib password s ≡ verify_fields lib password a b c d
unfolding verify_password
verify_password-fields lib password s s1 s2 a b c d x y z = ground (arith, x, y, z)

scheme-IsPlain : All IsPlain scheme_name
scheme-IsPlain = (
  refl,
  (
    refl,
    (refl, (refl, (refl, (refl, (refl, (refl, (refl, (refl, (refl, (refl, (refl, tt))))))))))),
  ),
)

-- The fields that pass the checks behind the scheme.
verify_fields_inverse :
    (lib : Openssl) (password a b c d : List ℕ)
    → verify_fields lib password a b c d ≡ true
    → (n : ℕ) × (salt : List ℕ) × (key : List ℕ) × (bytes_eq a scheme_name ≡ true)
      × (stoul b ≡ some n)
      × (0 < n)
      × (n ≤ 10_000_000)
      × (from_hex c ≡ some salt)
      × (from_hex d ≡ some key)
      × (length key ≡ key_bytes)
      × (bytes_eq (lib.pbkdf2 password salt n) key ≡ true)
unfolding verify_fields verify_key
verify_fields_inverse lib password a b c d h = elim (Option-cases (stoul b)) [
  | inl none_read ↦ ground (arith, h, none_read)
  | inr (n, r) ↦ elim (Option-cases (from_hex c)) [
    | inl no_salt ↦ ground (arith, h, r, no_salt)
    | inr (salt, x) ↦ elim (Option-cases (from_hex d)) [
      | inl no_key ↦ ground (arith, h, r, x, no_key)
      | inr (key, y) ↦ (
        n,
        salt,
        key,
        ground (arith, h),
        r,
        ground (arith, h, r),
        ground (arith, h, r),
        x,
        y,
        ground (arith, h, r, x, y),
        ground (arith, h, r, x, y),
      )
    ]
  ]
]

fields-IsMatch :
    (lib : Openssl) (password stored s1 s2 a b c d : List ℕ)
    → cut stored ≡ some (a, s1)
    → cut s1 ≡ some (b, s2)
    → cut s2 ≡ some (c, d)
    → verify_fields lib password a b c d ≡ true
    → IsMatch lib password stored
fields-IsMatch lib password stored s1 s2 a b c d x y z h =
    let (n, salt, key, scheme, r, low, high, salted, keyed, sized, equal) =
      verify_fields_inverse lib password a b c d h in
    let (made1, _) = cut_inverse stored a s1 x in
    let (made2, plain_b) = cut_inverse s1 b s2 y in
    let (made3, plain_c) = cut_inverse s2 c d z in
    let same : lib.pbkdf2 password salt n ≡ key = bytes_eq-≡ _ _ equal in
    record {
      iterations_text = b;
      salt_hex = c;
      hash_hex = d;
      made_of =
          made1
          ∙ ap (λ t. t ++ b'$' ∷ s1) (bytes_eq-≡ a scheme_name scheme)
          ∙ ap (λ t. scheme_name ++ b'$' ∷ t) (made2 ∙ ap (λ t. b ++ b'$' ∷ t) made3);
      plain = (plain_b, plain_c);
      iterations = n;
      parsed = r;
      bounded = (low, high);
      salt = salt;
      salted = salted;
      keyed = keyed ∙ ap some (sym same);
      sized = ap length same ∙ sized;
    }

IsMatch-verify_password :
    (lib : Openssl) (password stored : List ℕ)
    → IsMatch lib password stored
    → verify_password lib password stored ≡ true
unfolding verify_fields verify_key
IsMatch-verify_password lib password stored m =
    let (p, q) = m.plain in
    let (low, high) = m.bounded in
    let behind = m.salt_hex ++ (b'$' ∷ m.hash_hex) in
    let key = lib.pbkdf2 password m.salt m.iterations in
    let named = cut-append scheme_name (m.iterations_text ++ (b'$' ∷ behind)) scheme-IsPlain in
    ap (verify_password lib password) m.made_of
    ∙ verify_password-fields lib password _ _ _ _ _ _ _ named
        (cut-append m.iterations_text behind p) (cut-append m.salt_hex m.hash_hex q)
    ∙ ground (arith, m.parsed, m.salted, m.keyed, m.sized, low, high, bytes_eq_refl key)

verify_password-IsMatch :
    (lib : Openssl) (password stored : List ℕ)
    → verify_password lib password stored ≡ true
    → IsMatch lib password stored
unfolding verify_password
verify_password-IsMatch lib password stored h = elim (Option-cases (cut stored)) [
  | inl n ↦ ground (arith, h, n)
  | inr ((a, s1), x) ↦ elim (Option-cases (cut s1)) [
    | inl n ↦ ground (arith, h, x, n)
    | inr ((b, s2), y) ↦ elim (Option-cases (cut s2)) [
      | inl n ↦ ground (arith, h, x, y, n)
      | inr ((c, d), z) ↦
          let fields : verify_fields lib password a b c d ≡ true =
            sym (verify_password-fields lib password stored s1 s2 a b c d x y z) ∙ h in
          fields-IsMatch lib password stored s1 s2 a b c d x y z fields
    ]
  ]
]

-- A stored text accepts a password exactly if it names the scheme, from 1 to 10,000,000 iterations, a
-- salt, and a key of 32 bytes that is the one derived from the password.
pub verify_password_iff :
    (lib : Openssl) (password stored : List ℕ)
    → (verify_password lib password stored ≡ true) ↔ IsMatch lib password stored
verify_password_iff lib password stored =
    (verify_password-IsMatch lib password stored, IsMatch-verify_password lib password stored)

-- With a key derivation that gives 32 bytes: the hash of a password, with a salt and a number of
-- iterations in the bounds, lets in the administrator with this password, and no other user.
pub check_credentials-hash_password :
    (lib : Openssl) (salt password user : List ℕ) (iterations : ℕ) (cfg : AuthConfig)
    → 0 < length salt
    → All IsByte salt
    → (0 < iterations) × (iterations ≤ 10_000_000)
    → (All IsByte (lib.pbkdf2 password salt iterations))
      × (length (lib.pbkdf2 password salt iterations) ≡ key_bytes)
    → hash_password lib (some salt) password iterations ≡ some cfg.password_hash
    → check_credentials lib cfg user password ≡ bytes_eq user cfg.admin_user
unfolding check_credentials hash_password
check_credentials-hash_password lib salt password user iterations cfg salted bytes (low, high)
      (key, sized) h =
    let stored =
      stored_text (to_string iterations) (to_hex salt)
        (to_hex (lib.pbkdf2 password salt iterations)) in
    let same : stored ≡ cfg.password_hash = ground (arith, h) in
    let match_it : IsMatch lib password cfg.password_hash = record {
      iterations_text = to_string iterations;
      salt_hex = to_hex salt;
      hash_hex = to_hex (lib.pbkdf2 password salt iterations);
      made_of = sym same;
      plain = (decimal-IsPlain iterations, to_hex-IsPlain salt bytes);
      iterations = iterations;
      parsed = stoul-to_string iterations (omega (arith, high));
      bounded = (low, high);
      salt = salt;
      salted = from_hex-to_hex salt salted bytes;
      keyed = from_hex-to_hex (lib.pbkdf2 password salt iterations) (omega (arith, sized)) key;
      sized = sized;
    } in
    let set : is_empty cfg.password_hash ≡ false = ap is_empty (sym same) in
    ground (arith, set, IsMatch-verify_password lib password cfg.password_hash match_it)
