-- ===== src/Querier/Tax.antt =====
-- The tax of a transfer: `compute_tax` and `deduct_tax`, and the tax that the chain takes from the
-- sender on what is left of a coin.
use native.Mathlib.Nat.{div-le_of_le-mul, div-mul-le_self}
use native.Mathlib.Decide.{dec_le}
use anchor_staking_relayer.Prelude.{ℕ, ◌+◌, ◌-◌, ◌*◌, ◌/◌, ◌≤◌, ◌<◌, min, ◌≡◌, refl, arith}
use anchor_staking_relayer.Outcome.{ok}
use anchor_staking_relayer.BigNumber.{BigNumber, IsExact, decimal_one, uint128_values}
use anchor_staking_relayer.Platform.{Coin}
use anchor_staking_relayer.Deps.{Deps}
use anchor_staking_relayer.Querier.{compute_tax, deduct_tax}

-- What the chain charges the sender of `amount`: the rate of it, up to the cap.
abbrev pub chain_tax : ℕ → ℕ → ℕ → ℕ
chain_tax rate cap amount = min (amount * rate / decimal_one) cap

-- The tax that the code reserves out of an amount.
abbrev pub reserved_tax : ℕ → ℕ → ℕ → ℕ
reserved_tax rate cap amount = min (amount - amount * decimal_one / (decimal_one + rate)) cap

net-le_self : (a rate : ℕ) → a * decimal_one / (decimal_one + rate) ≤ a
net-le_self a rate = div-le_of_le-mul (decimal_one + rate) (omega arith)

net-le-gross : (a rate : ℕ) → a * decimal_one / (decimal_one + rate) ≤ a * decimal_one / decimal_one
net-le-gross a rate = omega (arith, net-le_self a rate)

-- The charge on the net value is at most the rest.
charge-net-le :
    (a rate : ℕ)
    → let net = a * decimal_one / (decimal_one + rate) in net * rate / decimal_one ≤ a - net
charge-net-le a rate =
    let net = a * decimal_one / (decimal_one + rate) in
    let paid : net * (decimal_one + rate) ≤ a * decimal_one =
      div-mul-le_self (a * decimal_one) (decimal_one + rate) in
    div-le_of_le-mul decimal_one (omega (arith, net-le_self a rate))

kept_pays_cases :
    (rate cap a net : ℕ)
    → net ≤ a
    → net * rate / decimal_one ≤ a - net
    → (a - min (a - net) cap) + chain_tax rate cap (a - min (a - net) cap) ≤ a
kept_pays_cases rate cap a net h k = elim (dec_le (a - net) cap) [
  | yes p ↦
      let e : min (a - net) cap ≡ a - net = omega arith in
      let f : a - (a - net) ≡ net = omega arith in rw (e, f) (omega arith)
  | no p ↦ let e : min (a - net) cap ≡ cap = omega arith in rw e (omega arith)
]

-- What is left once the tax is reserved can pay the charge.
pub kept_pays :
    (rate cap a : ℕ) → let kept = a - reserved_tax rate cap a in kept + chain_tax rate cap kept ≤ a
kept_pays rate cap a =
    kept_pays_cases rate cap a (a * decimal_one / (decimal_one + rate)) (net-le_self a rate)
      (charge-net-le a rate)

module _ (n : BigNumber) (exact : IsExact n) (d : Deps) (coin : Coin) (rate cap : ℕ)
    (rate_known : d.tax_rate ≡ ok rate) (cap_known : d.tax_cap coin.denom ≡ ok cap)
    (amount_fits : coin.amount < uint128_values) (rate_fits : rate < uint128_values) where
  -- For every amount of a `Uint128` and every rate of a `Decimal` the tax is computed: it is what
  -- the amount exceeds its net value by, amount / (1 + rate), but not more than the cap.
  pub compute_tax-reserved : compute_tax n d coin ≡ ok (reserved_tax rate cap coin.amount)
  unfolding compute_tax
  compute_tax-reserved = ground (
    arith,
    exact.mul_exact coin.amount decimal_one (omega arith),
    exact.decimal_add_exact decimal_one rate (omega arith),
    exact.div_exact coin.amount (decimal_one + rate) (omega arith) (omega arith),
    exact.sub_exact (coin.amount * decimal_one / decimal_one)
        (coin.amount * decimal_one / (decimal_one + rate)) (net-le-gross coin.amount rate),
  )

  -- `deduct_tax` succeeds too, and the coin that it returns can be sent: with the tax that the chain
  -- takes on it, it costs no more than the coin at hand. It is short of that coin by the reserved
  -- tax, which is at most the cap.
  pub deduct_tax_pays :
      (out : Coin) × (deduct_tax n d coin ≡ ok out)
      × (out.denom ≡ coin.denom)
      × (out.amount + reserved_tax rate cap coin.amount ≡ coin.amount)
      × (out.amount + chain_tax rate cap out.amount ≤ coin.amount)
  unfolding deduct_tax
  deduct_tax_pays = (
    record { denom = coin.denom; amount = coin.amount - reserved_tax rate cap coin.amount },
    ground (
      arith,
      compute_tax-reserved,
      exact.sub_exact coin.amount (reserved_tax rate cap coin.amount) (omega arith),
      exact.into_uint128_exact (coin.amount - reserved_tax rate cap coin.amount) (omega arith),
    ),
    refl,
    omega arith,
    kept_pays rate cap coin.amount,
  )
