-- ===== src/BigNumber.antt =====
-- The package `cosmwasm_bignumber`, as far as packages/moneymarket/src and src/deposit.rs call it.
-- A `Uint256` is its number, and a `Decimal256` its number of 10^-18ths, so that one is 10^18.
-- The operations are a parameter; `none` is a panic. `IsExact` is what its documentation promises:
-- a 256-bit unsigned integer, a fixed-point decimal with 18 digits that rounds down, and exact
-- results wherever these fit. It assumes nothing of an operation whose result does not fit.
pub mod Checked
use anchor_staking_relayer.Prelude.{ℕ, ◌+◌, ◌-◌, ◌*◌, ◌/◌, ◌^◌, ◌≤◌, ◌<◌, ◌≡◌, Option, none, some}

-- The number of values of a `Uint256`, and of a `Uint128`.
abbrev pub uint256_values : ℕ
uint256_values = 2 ^ 256

abbrev pub uint128_values : ℕ
uint128_values = 2 ^ 128

-- `Decimal256::one()`, and the factor between a number and its decimal.
abbrev pub decimal_one : ℕ
decimal_one = 1_000_000_000_000_000_000

pub record BigNumber : Type 0 where
  -- `Uint256 + Uint256` and `Uint256 - Uint256`
  pub add : ℕ → ℕ → Option ℕ
  pub sub : ℕ → ℕ → Option ℕ
  -- `Uint256 * Decimal256` and `Uint256 / Decimal256`
  pub mul_decimal : ℕ → ℕ → Option ℕ
  pub div_decimal : ℕ → ℕ → Option ℕ
  -- `Uint128::from(Uint256)`
  pub into_uint128 : ℕ → Option ℕ
  -- `Decimal256::from_uint256`
  pub from_uint256 : ℕ → Option ℕ
  -- `+`, `-` and `/` of two `Decimal256`
  pub decimal_add : ℕ → ℕ → Option ℕ
  pub decimal_sub : ℕ → ℕ → Option ℕ
  pub decimal_div : ℕ → ℕ → Option ℕ

pub record IsExact (n : BigNumber) : Type 0 where
  pub add_exact : (a b : ℕ) → a + b < uint256_values → n.add a b ≡ some (a + b)
  pub sub_exact : (a b : ℕ) → b ≤ a → n.sub a b ≡ some (a - b)
  pub mul_exact :
      (a d : ℕ) → a * d < uint256_values → n.mul_decimal a d ≡ some (a * d / decimal_one)
  pub div_exact :
      (a d : ℕ)
      → 0 < d
      → a * decimal_one < uint256_values
      → n.div_decimal a d ≡ some (a * decimal_one / d)
  pub into_uint128_exact : (a : ℕ) → a < uint128_values → n.into_uint128 a ≡ some a
  pub from_uint256_exact :
      (a : ℕ) → a * decimal_one < uint256_values → n.from_uint256 a ≡ some (a * decimal_one)
  pub decimal_add_exact : (a b : ℕ) → a + b < uint256_values → n.decimal_add a b ≡ some (a + b)
  pub decimal_sub_exact : (a b : ℕ) → b ≤ a → n.decimal_sub a b ≡ some (a - b)
  pub decimal_div_exact :
      (a b : ℕ)
      → 0 < b
      → a * decimal_one < uint256_values
      → n.decimal_div a b ≡ some (a * decimal_one / b)

-- A division by zero panics.
abbrev pub PanicsOnZero : BigNumber → Type 0
PanicsOnZero n = (a : ℕ) → n.div_decimal a 0 ≡ none
