-- ===== src/Deposit/Tests.antt =====
-- A contract with 1_000_000 of the stable coin, 100_000 owed to it, 50_000 in reserve and 400_000
-- aTerra in circulation: runs of the handlers, and the theorems there.
use anchor_staking_relayer.Prelude.{ℕ, ◌+◌, ◌*◌, ◌≤◌, ◌≡◌, refl, [], ◌∷◌, arith}
use anchor_staking_relayer.Bytes.{text, bytes_eq}
use anchor_staking_relayer.Outcome.{ok, err, panic}
use anchor_staking_relayer.BigNumber.{decimal_one}
use anchor_staking_relayer.BigNumber.Checked.{checked, checked-IsExact, checked-PanicsOnZero}
use anchor_staking_relayer.Platform.{Coin, Response, MessageInfo, wasm_execute, bank_send}
use anchor_staking_relayer.Deps.Sample.{sample_deps}
use anchor_staking_relayer.MarketState.{State, zero_deposit, no_stable_available}
use anchor_staking_relayer.MarketState.Sample.{
  sample_config, sample_state, sample_store, sample_store-IsStore, sample_borrow, sample_env,
  sample_storage, accrued_state,
}
use anchor_staking_relayer.Querier.{query_balance, query_supply, deduct_tax}
use anchor_staking_relayer.Querier.Tax.{reserved_tax, chain_tax}
use anchor_staking_relayer.Deposit.Rate.{
  compute_exchange_rate, compute_exchange_rate_raw, assert_redeem_amount,
}
use anchor_staking_relayer.Deposit.{
  accrued, funds_in, redeem_response, deposit_message, deposit_accrued, deposit_stable,
  redeem_messages, redeem_accrued, redeem_stable,
}
use anchor_staking_relayer.Deposit.FirstDeposit.{deposit_stable_without_worth}
use anchor_staking_relayer.Deposit.DepositLaws.{deposit_stable_refused, deposit_stable_mints}
use anchor_staking_relayer.Deposit.RedeemLaws.{
  redeem_stable_refused, redeem_stable_solvent, redeem_stable_pays,
}

-- 1_050_000 over 400_000
abbrev rate : ℕ
rate = 2_625_000_000_000_000_000

-- A deposit of 262_500, which the balance of 1_000_000 includes.
abbrev info : MessageInfo
info = record {
  sender = text "alice";
  funds =
      record { denom = text "uluna"; amount = 5 }
      ∷ record { denom = text "uusd"; amount = 262_500 }
      ∷ [];
}

abbrev nothing_sent : MessageInfo
nothing_sent = record info { funds = record { denom = text "uluna"; amount = 5 } ∷ [] }

-- 787_500 over 400_000
abbrev deposit_rate : ℕ
deposit_rate = 1_968_750_000_000_000_000

abbrev after_deposit : State
after_deposit = record accrued_state { prev_aterra_supply = 533_333 }

deposit_run :
    (deposit_stable checked sample_deps sample_store sample_borrow sample_env info sample_storage).1
    ≡ (sample_config, after_deposit)
unfolding deposit_stable deposit_accrued deposit_message checked compute_exchange_rate
    compute_exchange_rate_raw query_balance query_supply bytes_eq
deposit_run = refl

deposit_stable_refused_run :
    deposit_stable checked sample_deps sample_store sample_borrow sample_env nothing_sent
      sample_storage
    ≡ (err (zero_deposit (text "uusd")), sample_storage)
unfolding bytes_eq funds_in
deposit_stable_refused_run =
    deposit_stable_refused checked sample_deps sample_store sample_borrow sample_env nothing_sent
      sample_config sample_storage refl refl

deposit_stable_mints_example :
    (resp : Response) × (deposit_stable checked sample_deps sample_store sample_borrow sample_env
        info sample_storage
      ≡ (ok resp, (sample_config, after_deposit)))
    × (resp.messages ≡ wasm_execute (text "aterra") [] (4 ∷ 133_333 ∷ text "alice") ∷ [])
    × (sample_store.read_config (sample_config, after_deposit) ≡ ok sample_config)
    × (sample_store.read_state (sample_config, after_deposit) ≡ ok after_deposit)
    × (133_333 * deposit_rate ≤ 262_500 * decimal_one)
unfolding funds_in bytes_eq accrued compute_exchange_rate compute_exchange_rate_raw query_balance
    query_supply checked
deposit_stable_mints_example =
    deposit_stable_mints checked sample_deps sample_store sample_borrow sample_env info
      sample_config sample_storage refl checked-IsExact sample_store-IsStore accrued_state
      deposit_rate (sample_config, after_deposit) (text "aterra") (4 ∷ 133_333 ∷ text "alice")
      (omega arith) (omega arith) (omega arith) (omega arith) (omega arith) refl refl refl refl refl

-- A redemption of 1_000 aTerra, at 2.625.
abbrev after_redeem : State
after_redeem = record accrued_state { prev_aterra_supply = 399_000 }

redeem_stable_pays_example :
    (resp : Response) × (paid : Coin) × (redeem_stable checked sample_deps sample_store
        sample_borrow sample_env
        (text "bob")
        1_000
        sample_storage
      ≡ (ok resp, (sample_config, after_redeem)))
    × (resp.messages
        ≡ wasm_execute (text "aterra") [] (5 ∷ 1_000 ∷ [])
          ∷ bank_send (text "bob") (paid ∷ [])
          ∷ [])
    × (paid.denom ≡ text "uusd")
    × (paid.amount + reserved_tax 10_000_000_000_000_000 1_000_000 2_625 ≡ 2_625)
    × (paid.amount + chain_tax 10_000_000_000_000_000 1_000_000 paid.amount ≤ 2_625)
    × (sample_store.read_state (sample_config, after_redeem) ≡ ok after_redeem)
unfolding accrued compute_exchange_rate compute_exchange_rate_raw query_balance query_supply checked
redeem_stable_pays_example =
    redeem_stable_pays checked checked-IsExact sample_deps sample_store sample_borrow sample_env
      (text "bob") 1_000 sample_config accrued_state rate 1_000_000 sample_storage refl refl refl
      refl (omega arith) (omega arith) (omega arith) sample_store-IsStore 10_000_000_000_000_000
      1_000_000 (sample_config, after_redeem) (text "aterra") (5 ∷ 1_000 ∷ []) (omega arith)
      (omega arith) (omega arith) (omega arith) refl refl refl refl refl

redeem_run :
    (redeem_stable checked sample_deps sample_store sample_borrow sample_env
      (text "bob")
      1_000
      sample_storage).0
    ≡ ok (
        redeem_response
          (text "aterra")
          (5 ∷ 1_000 ∷ [])
          (text "bob")
          (record { denom = text "uusd"; amount = 2_599 })
          1_000
          2_625)
unfolding redeem_stable redeem_accrued redeem_messages accrued compute_exchange_rate
    compute_exchange_rate_raw query_balance query_supply checked assert_redeem_amount deduct_tax
redeem_run = refl

redeem_stable_solvent_example :
    2_625 * decimal_one + accrued_state.total_reserves ≤ 1_000_000 * decimal_one
unfolding redeem_stable redeem_accrued redeem_messages accrued compute_exchange_rate
    compute_exchange_rate_raw query_balance query_supply checked assert_redeem_amount deduct_tax
redeem_stable_solvent_example =
    redeem_stable_solvent checked checked-IsExact sample_deps sample_store sample_borrow sample_env
      (text "bob") 1_000 sample_config accrued_state rate 1_000_000 sample_storage refl refl refl
      refl (omega arith) (omega arith) (omega arith) redeem_run

-- 380_000 aTerra are worth 997_500, which leaves less than the reserves.
redeem_stable_refused_example :
    redeem_stable checked sample_deps sample_store sample_borrow sample_env
      (text "bob")
      380_000
      sample_storage
    ≡ (err (no_stable_available (text "uusd")), sample_storage)
unfolding accrued compute_exchange_rate compute_exchange_rate_raw query_balance query_supply checked
redeem_stable_refused_example =
    redeem_stable_refused checked checked-IsExact sample_deps sample_store sample_borrow sample_env
      (text "bob") 380_000 sample_config accrued_state rate 1_000_000 sample_storage refl refl refl
      refl (omega arith) (omega arith) (omega arith) (omega arith)

-- The whole balance has come with the call, and nothing is owed.
abbrev all_funds : MessageInfo
all_funds = record {
  sender = text "alice";
  funds = record { denom = text "uusd"; amount = 1_000_000 } ∷ [];
}

abbrev new_state : State
new_state = record sample_state { total_liabilities = 0; total_reserves = 0 }

abbrev new_accrued : State
new_accrued = record accrued_state { total_liabilities = 0; total_reserves = 0 }

deposit_stable_without_worth_example :
    deposit_stable checked sample_deps sample_store sample_borrow sample_env all_funds
      (sample_config, new_state)
    ≡ (panic, (sample_config, new_state))
unfolding accrued funds_in bytes_eq query_balance query_supply
deposit_stable_without_worth_example =
    deposit_stable_without_worth checked checked-IsExact checked-PanicsOnZero sample_deps
      sample_store sample_borrow sample_env all_funds sample_config new_accrued
      (sample_config, new_state) (text "aterra") (text "market") 400_000 refl (omega arith) refl
      refl refl refl refl refl refl (omega arith) (omega arith)
