-- ===== src/BigNumber/Checked.antt =====
-- A value for the parameter: every operation checks that its result fits, and panics if not.
use anchor_staking_relayer.Prelude.{
  ℕ, ◌+◌, ◌-◌, ◌*◌, ◌/◌, ◌≤◌, ◌<◌, ◌≡◌, refl, Option, none, some, arith, ltb, if◌then◌else◌,
}
use anchor_staking_relayer.BigNumber.{
  BigNumber, IsExact, PanicsOnZero, uint256_values, uint128_values, decimal_one,
}

fits : ℕ → ℕ → ℕ → Option ℕ
fits values size result = if ltb size values then some result else none

checked_sub : ℕ → ℕ → Option ℕ
checked_sub a b = if ltb a b then none else some (a - b)

checked_div : ℕ → ℕ → Option ℕ
unfolding fits
checked_div a b =
    if ltb 0 b then fits uint256_values (a * decimal_one) (a * decimal_one / b) else none

unfoldable pub checked : BigNumber
unfolding fits checked_sub checked_div
checked = record {
  add = λ a b. fits uint256_values (a + b) (a + b);
  sub = checked_sub;
  mul_decimal = λ a d. fits uint256_values (a * d) (a * d / decimal_one);
  div_decimal = checked_div;
  into_uint128 = λ a. fits uint128_values a a;
  from_uint256 = λ a. fits uint256_values (a * decimal_one) (a * decimal_one);
  decimal_add = λ a b. fits uint256_values (a + b) (a + b);
  decimal_sub = checked_sub;
  decimal_div = checked_div;
}

fits_lem : (values size result : ℕ) → size < values → fits values size result ≡ some result
unfolding fits
fits_lem values size result h = ground arith

checked_div_lem :
    (a b : ℕ)
    → 0 < b
    → a * decimal_one < uint256_values
    → checked_div a b ≡ some (a * decimal_one / b)
unfolding checked_div
checked_div_lem a b p h = ground arith

pub checked-IsExact : IsExact checked
unfolding checked
checked-IsExact = record {
  add_exact = λ a b. fits_lem _ _ _;
  sub_exact = λ a b h. ground arith;
  mul_exact = λ a d. fits_lem _ _ _;
  div_exact = checked_div_lem;
  into_uint128_exact = λ a. fits_lem _ _ _;
  from_uint256_exact = λ a. fits_lem _ _ _;
  decimal_add_exact = λ a b. fits_lem _ _ _;
  decimal_sub_exact = λ a b h. ground arith;
  decimal_div_exact = checked_div_lem;
}

pub checked-PanicsOnZero : PanicsOnZero checked
unfolding checked
checked-PanicsOnZero a = refl

-- A number that fits is kept.
pub checked-into_uint128 :
    (a b : ℕ) → checked.into_uint128 a ≡ some b → (b ≡ a) × (b < uint128_values)
unfolding checked fits
checked-into_uint128 a b e = (ground (arith, e), ground (arith, e))

-- A sum that does not fit panics.
pub checked-add_overflow : (a b : ℕ) → uint256_values ≤ a + b → checked.add a b ≡ none
unfolding checked fits
checked-add_overflow a b h = ground arith
