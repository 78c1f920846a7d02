-- ===== src/Scenarios/Ota.antt =====
-- The hex text of a short hash.
use alpr_li_dar_gate_automat.Base.{ℕ, List, [], ◌∷◌, some, ◌≡◌, refl}
use alpr_li_dar_gate_automat.Ota.Manifest.{hex_decode, decode_bytes, hex_nibble}

-- "fF0a".
abbrev text : List ℕ
text = b'f' ∷ b'F' ∷ b'0' ∷ b'a' ∷ []

abbrev bytes : List ℕ
bytes = 255 ∷ 10 ∷ []

decoded : hex_decode (some text) 2 ≡ some bytes
unfolding hex_decode decode_bytes hex_nibble
decoded = refl
