-- ===== src/Platform/Sample.antt =====
-- What the encodings of the tests share: a text is written behind its length.
use anchor_staking_relayer.Prelude.{ℕ, zero, suc, length, ◌≡◌, refl, [], ◌∷◌, ◌++◌, arith}
use anchor_staking_relayer.Bytes.{Text}

abbrev pub split : ℕ → Text → Text × Text
split zero bs = ([], bs)
split (suc n) [] = ([], [])
split (suc n) (b ∷ bs) = let r = split n bs in (b ∷ r.0, r.1)

pub split-append : (xs ys : Text) → split (length xs) (xs ++ ys) ≡ (xs, ys)
split-append [] ys = refl
split-append (x ∷ xs) ys = ground (arith, split-append xs ys)
