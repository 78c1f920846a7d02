-- ===== src/Server/Broadcast/Order.antt =====
-- Lists with some elements left out.
use alpr_li_dar_gate_automat.Base.{List, [], ◌++◌, ◌∷◌}

-- `xs` is what is left of `ys` when some of its elements are left out.
pub data Subsequence {A : Type 0} : List A → List A → Type 0 where
  done : Subsequence [] []
  keep : {x : A} {xs ys : List A} → Subsequence xs ys → Subsequence (x ∷ xs) (x ∷ ys)
  skip : {x : A} {xs ys : List A} → Subsequence xs ys → Subsequence xs (x ∷ ys)

pub Subsequence-refl : {A : Type 0} (xs : List A) → Subsequence xs xs
Subsequence-refl [] = done
Subsequence-refl (x ∷ xs) = keep (Subsequence-refl xs)

pub Subsequence-append :
    {A : Type 0} {xs ys : List A} (zs : List A)
    → Subsequence xs ys
    → Subsequence (xs ++ zs) (ys ++ zs)
Subsequence-append zs done = Subsequence-refl zs
Subsequence-append zs (keep s) = keep (Subsequence-append zs s)
Subsequence-append zs (skip s) = skip (Subsequence-append zs s)

pub Subsequence-snoc :
    {A : Type 0} {xs ys : List A} (z : A) → Subsequence xs ys → Subsequence xs (ys ++ z ∷ [])
Subsequence-snoc z done = skip done
Subsequence-snoc z (keep s) = keep (Subsequence-snoc z s)
Subsequence-snoc z (skip s) = skip (Subsequence-snoc z s)
