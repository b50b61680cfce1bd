-- ===== src/Deposit/Rate/Vault.antt =====
-- Deposits, redemptions, payments in and accruals of interest in any order, and the exchange rate of
-- src/deposit.rs: each deposit and each redemption is at the rate of the moment.
use native.Mathlib.Nat.{le_refl, le_trans}
use anchor_staking_relayer.Prelude.{ℕ, ◌+◌, ◌-◌, ◌*◌, ◌≤◌, ◌<◌, ◌≡◌, some, arith}
use anchor_staking_relayer.Outcome.{ok}
use anchor_staking_relayer.BigNumber.{BigNumber, IsExact, uint256_values}
use anchor_staking_relayer.MarketState.{State}
use anchor_staking_relayer.Deposit.Rate.{compute_exchange_rate_raw}
use anchor_staking_relayer.Deposit.Rate.Laws.{
  InRange, rate_after_deposit, rate_after_redeem, rate_mono,
}

-- The state of the market, the supply of aTerra, the balance of the contract and the rate between
-- them.
pub record Vault : Type 0 where
  pub state : State
  pub supply : ℕ
  pub balance : ℕ
  pub rate : ℕ

module _ (n : BigNumber) where
  -- The rate is the one that the code computes, and its computation stays in range.
  pub record IsRated (v : Vault) : Type 0 where
    pub in_range : InRange v.state v.supply v.balance
    pub rated : compute_exchange_rate_raw n v.state v.supply v.balance ≡ ok v.rate
    pub worth_something : 0 < v.rate

  -- What `deposit_stable` and `redeem_stable` do to the supply and the balance, and what happens
  -- between them: interest accrues, of which no more is reserved than owed, and coins are sent to
  -- the contract. The supply on record, which the handlers write, has no part in the rate.
  pub data Step (v : Vault) : Vault → Type 0 where
    deposit :
        (amount mint rate' : ℕ)
        → n.div_decimal amount v.rate ≡ some mint
        → Step v (record v { supply = v.supply + mint; balance = v.balance + amount; rate = rate' })
    redeem :
        (burned redeemed rate' : ℕ)
        → burned < v.supply
        → redeemed ≤ v.balance
        → burned * v.rate < uint256_values
        → n.mul_decimal burned v.rate ≡ some redeemed
        → Step v
            (record v { supply = v.supply - burned; balance = v.balance - redeemed; rate = rate' })
    accrue :
        (state' : State) (rate' : ℕ)
        → v.state.total_liabilities + state'.total_reserves
          ≤ state'.total_liabilities + v.state.total_reserves
        → Step v (record v { state = state'; rate = rate' })
    receive : (amount rate' : ℕ) → Step v (record v { balance = v.balance + amount; rate = rate' })

  -- A sequence of steps through vaults with a computed rate.
  pub data Run (v : Vault) : Vault → Type 0 where
    stay : Run v v
    after : {u w : Vault} → Run v u → Step u w → IsRated w → Run v w

  module _ (exact : IsExact n) where
    Step-rate :
        {v w : Vault}
        → IsRated v
        → InRange w.state w.supply w.balance
        → compute_exchange_rate_raw n w.state w.supply w.balance ≡ ok w.rate
        → Step v w
        → v.rate ≤ w.rate
    Step-rate {v} hv fits rated (deposit amount mint rate' minted) =
        rate_after_deposit n exact v.state v.supply v.balance v.rate hv.in_range hv.rated amount
          mint rate' hv.worth_something minted fits rated
    Step-rate {v} hv fits rated (redeem burned redeemed rate' part held small paid_out) =
        rate_after_redeem n exact v.state v.supply v.balance v.rate hv.in_range hv.rated burned
          redeemed rate' part held small paid_out fits rated
    Step-rate {v} hv fits rated (accrue state' rate' grown) =
        rate_mono n exact v.state state' v.supply v.balance v.balance v.rate rate'
          (omega (arith, hv.in_range.at_hand, fits.at_hand)) hv.in_range hv.rated fits rated
    Step-rate {v} hv fits rated (receive amount rate') =
        rate_mono n exact v.state v.state v.supply v.balance (v.balance + amount) v.rate rate'
          (omega arith) hv.in_range hv.rated fits rated

    Run-IsRated : {v w : Vault} → IsRated v → Run v w → IsRated w
    Run-IsRated h stay = h
    Run-IsRated h (after r st hw) = hw

    -- Whoever holds aTerra is not diluted by any sequence of deposits and redemptions, each at the
    -- rate that the code computes at the moment, of accruals of which no more is reserved than owed,
    -- and of payments to the contract, with every computation in range: the rate at its end is at
    -- least the rate at its start.
    pub Run-rate : {v w : Vault} → IsRated v → Run v w → v.rate ≤ w.rate
    Run-rate h stay = le_refl _
    Run-rate h (after r st hw) =
        le_trans (Run-rate h r) (Step-rate (Run-IsRated h r) hw.in_range hw.rated st)
