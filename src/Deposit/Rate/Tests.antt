-- ===== src/Deposit/Rate/Tests.antt =====
-- The exchange rate of a contract with 1_000_000 of the stable coin, 100_000 owed to it, 50_000 in
-- reserve and 400_000 aTerra in circulation.
use anchor_staking_relayer.Prelude.{ℕ, ◌+◌, ◌*◌, ◌/◌, ◌≤◌, ◌<◌, ◌≡◌, refl, arith}
use anchor_staking_relayer.Outcome.{ok}
use anchor_staking_relayer.BigNumber.{decimal_one}
use anchor_staking_relayer.BigNumber.Checked.{checked, checked-IsExact}
use anchor_staking_relayer.MarketState.{State}
use anchor_staking_relayer.MarketState.Sample.{sample_state}
use anchor_staking_relayer.Deposit.Rate.{compute_exchange_rate_raw}
use anchor_staking_relayer.Deposit.Rate.Laws.{
  InRange, worth, rate-worth, rate_after_deposit, rate_after_redeem, redeem_of_mint,
}
use anchor_staking_relayer.Deposit.Rate.Vault.{
  Vault, IsRated, Run, stay, after, deposit, redeem, accrue, Run-rate,
}

-- 1_050_000 over 400_000
abbrev rate : ℕ
rate = 2_625_000_000_000_000_000

rate_run : compute_exchange_rate_raw checked sample_state 400_000 1_000_000 ≡ ok rate
unfolding compute_exchange_rate_raw checked
rate_run = refl

in_range : InRange sample_state 400_000 1_000_000
in_range = omega arith

-- 787_500 over 400_000
abbrev deposit_rate : ℕ
deposit_rate = 1_968_750_000_000_000_000

rate-worth_example :
    compute_exchange_rate_raw checked sample_state 400_000 1_000_000
    ≡ ok (worth sample_state 1_000_000 / 400_000)
rate-worth_example = rate-worth checked checked-IsExact sample_state 400_000 1_000_000 in_range

redeem_of_mint_example :
    (262_499 ≤ 262_500) × (262_500 * decimal_one < (262_499 + 1) * decimal_one + deposit_rate)
unfolding checked
redeem_of_mint_example =
    redeem_of_mint checked checked-IsExact 262_500 deposit_rate 133_333 262_499 (omega arith)
      (omega arith) refl refl

-- From there, a deposit of 262_500, an accrual of 1_000 of which 100 are reserved, and then a
-- redemption of 1_001 aTerra, which rounds down.
abbrev start : Vault
start = record { state = sample_state; supply = 400_000; balance = 1_000_000; rate = rate }

abbrev larger : Vault
larger = record start { supply = 500_000; balance = 1_262_500 }

abbrev later : State
later = record sample_state {
  total_liabilities = 101_000_000_000_000_000_000_000;
  total_reserves = 50_100_000_000_000_000_000_000;
}

abbrev grown : Vault
grown = record larger { state = later; rate = 2_626_800_000_000_000_000 }

abbrev smaller : Vault
smaller = record grown { supply = 498_999; balance = 1_259_871; rate = 2_626_800_855_312_335_295 }

start-IsRated : IsRated checked start
start-IsRated = record { in_range = in_range; rated = rate_run; worth_something = omega arith }

larger-IsRated : IsRated checked larger
unfolding compute_exchange_rate_raw checked
larger-IsRated = record { in_range = omega arith; rated = refl; worth_something = omega arith }

grown-IsRated : IsRated checked grown
unfolding compute_exchange_rate_raw checked
grown-IsRated = record { in_range = omega arith; rated = refl; worth_something = omega arith }

smaller-IsRated : IsRated checked smaller
unfolding compute_exchange_rate_raw checked
smaller-IsRated = record { in_range = omega arith; rated = refl; worth_something = omega arith }

run : Run checked start smaller
unfolding checked
run =
    after
      (after (after stay (deposit 262_500 100_000 rate refl) larger-IsRated)
        (accrue later grown.rate (omega arith)) grown-IsRated)
      (redeem 1_001 2_629 smaller.rate (omega arith) (omega arith) (omega arith) refl)
      smaller-IsRated

Run-rate_example : rate ≤ smaller.rate
Run-rate_example = Run-rate checked checked-IsExact start-IsRated run

rate_after_deposit_example : rate ≤ rate
unfolding compute_exchange_rate_raw checked
rate_after_deposit_example =
    rate_after_deposit checked checked-IsExact sample_state 400_000 1_000_000 rate in_range rate_run
      262_500 100_000 rate (omega arith) refl (omega arith) refl

rate_after_redeem_example : rate ≤ 2_625_001_252_507_520_055
unfolding compute_exchange_rate_raw checked
rate_after_redeem_example =
    rate_after_redeem checked checked-IsExact sample_state 500_000 1_262_500 rate (omega arith) refl
      1_001 2_627 2_625_001_252_507_520_055 (omega arith) (omega arith) (omega arith) refl
      (omega arith) refl
