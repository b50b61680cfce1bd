-- ===== src/Deposit/Rate/Laws.antt =====
-- The exchange rate as a number, and what a mint or a redemption at that rate does to it.
use native.Mathlib.Nat.{le-div_iff_mul-le, div-mul-le_self, mul-div-mul_right, lt-div-mul-add}
use anchor_staking_relayer.Prelude.{ℕ, ◌+◌, ◌-◌, ◌*◌, ◌/◌, ◌≤◌, ◌<◌, ◌≡◌, some, arith, ap}
use anchor_staking_relayer.Outcome.{ok}
use anchor_staking_relayer.BigNumber.{BigNumber, IsExact, decimal_one, uint256_values}
use anchor_staking_relayer.MarketState.{State}
use anchor_staking_relayer.Deposit.Rate.{compute_exchange_rate_raw}

-- What the contract owns, in 10^-18ths: its balance and what is owed to it, less the reserves.
abbrev pub worth : State → ℕ → ℕ
worth state balance = balance * decimal_one + state.total_liabilities - state.total_reserves

-- There is aTerra, the reserves are at hand, and the intermediate results are 256-bit numbers.
pub record InRange (state : State) (supply balance : ℕ) : Type 0 where
  pub minted : 0 < supply
  pub at_hand : state.total_reserves ≤ balance * decimal_one + state.total_liabilities
  pub worth_fits : (balance * decimal_one + state.total_liabilities) * decimal_one < uint256_values
  pub supply_fits : supply * decimal_one < uint256_values

module _ (n : BigNumber) (exact : IsExact n) (state : State) where
  -- With aTerra in circulation the rate is the worth of the contract over the supply, rounded down.
  pub rate-worth :
      (supply balance : ℕ)
      → InRange state supply balance
      → compute_exchange_rate_raw n state supply balance ≡ ok (worth state balance / supply)
  unfolding compute_exchange_rate_raw
  rate-worth supply balance r =
      rw (← mul-div-mul_right {m = decimal_one} (worth state balance) supply (omega arith)) (
        ground (
          arith,
          r.minted,
          exact.from_uint256_exact balance (omega (arith, r.worth_fits)),
          exact.decimal_add_exact (balance * decimal_one) state.total_liabilities
              (omega (arith, r.worth_fits)),
          exact.decimal_sub_exact (balance * decimal_one + state.total_liabilities)
              state.total_reserves r.at_hand,
          exact.from_uint256_exact supply r.supply_fits,
          exact.decimal_div_exact (worth state balance) (supply * decimal_one)
              (omega (arith, r.minted)) (omega (arith, r.worth_fits)),
        ))

  pub rate-eq :
      (supply balance rate : ℕ)
      → InRange state supply balance
      → compute_exchange_rate_raw n state supply balance ≡ ok rate
      → rate ≡ worth state balance / supply
  rate-eq supply balance rate r e = ground (arith, e, rate-worth supply balance r)

  module _ (supply balance rate : ℕ) (before : InRange state supply balance)
      (rated : compute_exchange_rate_raw n state supply balance ≡ ok rate) where
    pub rate-mul-le : rate * supply ≤ worth state balance
    rate-mul-le =
        rw (rate-eq supply balance rate before rated) (div-mul-le_self (worth state balance) supply)

    -- Minting at the rate does not dilute: after a deposit the rate is at least what it was.
    pub rate_after_deposit :
        (deposit mint rate' : ℕ)
        → 0 < rate
        → n.div_decimal deposit rate ≡ some mint
        → InRange state (supply + mint) (balance + deposit)
        → compute_exchange_rate_raw n state (supply + mint) (balance + deposit) ≡ ok rate'
        → rate ≤ rate'
    rate_after_deposit deposit mint rate' pos minted after rated' =
        let fits : deposit * decimal_one < uint256_values = omega (arith, after.worth_fits) in
        let mint_eq : mint ≡ deposit * decimal_one / rate =
          ground (arith, minted, exact.div_exact deposit rate pos fits) in
        let paid : mint * rate ≤ deposit * decimal_one =
          rw mint_eq (div-mul-le_self (deposit * decimal_one) rate) in
        rw (rate-eq (supply + mint) (balance + deposit) rate' after rated')
          ((le-div_iff_mul-le after.minted).1 (omega (arith, paid, rate-mul-le, before.at_hand)))

    -- Nor does a redemption: what is paid out is not worth more than the aTerra that is burned.
    pub rate_after_redeem :
        (burned redeemed rate' : ℕ)
        → burned < supply
        → redeemed ≤ balance
        → burned * rate < uint256_values
        → n.mul_decimal burned rate ≡ some redeemed
        → InRange state (supply - burned) (balance - redeemed)
        → compute_exchange_rate_raw n state (supply - burned) (balance - redeemed) ≡ ok rate'
        → rate ≤ rate'
    rate_after_redeem burned redeemed rate' part held fits paid_out after rated' =
        let redeemed_eq : redeemed ≡ burned * rate / decimal_one =
          ground (arith, paid_out, exact.mul_exact burned rate fits) in
        let paid : redeemed * decimal_one ≤ burned * rate =
          rw redeemed_eq (div-mul-le_self (burned * rate) decimal_one) in
        let left : rate * (supply - burned) + rate * burned ≡ rate * supply = omega (
          arith,
          ap (λ (t : ℕ). rate * t) (let e : supply - burned + burned ≡ supply = omega arith in e),
        ) in
        rw (rate-eq (supply - burned) (balance - redeemed) rate' after rated') (
          (le-div_iff_mul-le after.minted).1
            (omega (arith, paid, left, rate-mul-le, after.at_hand, held)))

-- With the same supply the rate is higher when the contract is worth more.
module _ (n : BigNumber) (exact : IsExact n) (state state' : State)
    (supply balance balance' rate rate' : ℕ) where
  pub rate_mono :
      worth state balance ≤ worth state' balance'
      → InRange state supply balance
      → compute_exchange_rate_raw n state supply balance ≡ ok rate
      → InRange state' supply balance'
      → compute_exchange_rate_raw n state' supply balance' ≡ ok rate'
      → rate ≤ rate'
  rate_mono grown before rated after rated' =
      rw (rate-eq n exact state' supply balance' rate' after rated') (
        (le-div_iff_mul-le after.minted).1
          (omega (arith, grown, rate-mul-le n exact state supply balance rate before rated)))

-- Minting and redeeming at one rate gives nothing away: what is redeemed for the minted aTerra is
-- at most what was deposited, and less than one aTerra's worth below it.
module _ (n : BigNumber) (exact : IsExact n) (deposit rate mint redeemed : ℕ) (pos : 0 < rate)
    (fits : deposit * decimal_one < uint256_values) where
  pub redeem_of_mint :
      n.div_decimal deposit rate ≡ some mint
      → n.mul_decimal mint rate ≡ some redeemed
      → (redeemed ≤ deposit) × (deposit * decimal_one < (redeemed + 1) * decimal_one + rate)
  redeem_of_mint minted paid_out =
      let mint_eq : mint ≡ deposit * decimal_one / rate =
        ground (arith, minted, exact.div_exact deposit rate pos fits) in
      let paid : mint * rate ≤ deposit * decimal_one =
        rw mint_eq (div-mul-le_self (deposit * decimal_one) rate) in
      let most : deposit * decimal_one < mint * rate + rate =
        rw mint_eq (lt-div-mul-add {a = deposit * decimal_one} pos) in
      let redeemed_eq : redeemed ≡ mint * rate / decimal_one =
        ground (arith, paid_out, exact.mul_exact mint rate (omega (arith, paid))) in
      (omega (arith, paid, redeemed_eq), omega (arith, most, redeemed_eq))
