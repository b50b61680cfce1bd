-- ===== src/Tokens/While/AssertLaws.antt =====
-- `assert_duplicate_token` on an index.
use anchor_staking_relayer.Prelude.{
  ℕ, zero, suc, ◌+◌, ◌<◌, ◌≡◌, refl, some, [], ◌∷◌, ◌++◌, length, arith,
}
use anchor_staking_relayer.Bytes.{Bytes}
use anchor_staking_relayer.Tokens.{Tokens, assert_from, assert_duplicate_token}
use anchor_staking_relayer.Tokens.While.Arrays.{
  in_bounds, get_here, rest_snoc, length_snoc, out_of_bounds,
}
use anchor_staking_relayer.Tokens.While.{assert_while, assert_by_index}

assert_while-assert_from :
    (fuel : ℕ) (self : Tokens) (a : Bytes) (i : ℕ) (ps rs : Tokens)
    → self ≡ ps ++ rs
    → i ≡ length ps
    → length rs < fuel
    → assert_while fuel self a i ≡ some (assert_from a rs)
unfolding assert_while assert_from
assert_while-assert_from zero self a i ps rs es ei h = absurd (omega arith)
assert_while-assert_from (suc fuel) self a i ps [] es ei h =
    ground (arith, out_of_bounds ps self i es ei)
assert_while-assert_from (suc fuel) self a i ps (t ∷ rs) es ei h = ground (
  arith,
  in_bounds ps t rs self i es ei,
  get_here ps t rs self i es ei,
  assert_while-assert_from fuel self t.0 (i + 1) (ps ++ t ∷ []) rs (rest_snoc ps t rs self i es ei)
      (length_snoc ps t rs self i es ei) (omega arith),
)

pub assert_by_index-assert : (ts : Tokens) → assert_by_index ts ≡ some (assert_duplicate_token ts)
unfolding assert_by_index assert_duplicate_token
assert_by_index-assert [] = refl
assert_by_index-assert (t ∷ []) = refl
assert_by_index-assert (t ∷ u ∷ rest) = ground (
  arith,
  assert_while-assert_from (length (t ∷ u ∷ rest)) (t ∷ u ∷ rest) t.0 1 (t ∷ []) (u ∷ rest) refl
      refl (omega arith),
)
