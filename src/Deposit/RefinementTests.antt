-- ===== src/Deposit/RefinementTests.antt =====
-- The refinement of the vault by the handlers, at the deposit and the redemption of Deposit/Tests.
use anchor_staking_relayer.Prelude.{◌+◌, ◌-◌, ◌≡◌, refl, [], ◌∷◌, arith}
use anchor_staking_relayer.Bytes.{text, bytes_eq}
use anchor_staking_relayer.Outcome.{ok}
use anchor_staking_relayer.BigNumber.Checked.{checked, checked-IsExact}
use anchor_staking_relayer.Platform.{
  Coin, Response, MessageInfo, mint, burn, wasm_execute, bank_send,
}
use anchor_staking_relayer.Deps.Sample.{sample_deps, cw20_execute_msg-RoundTrips}
use anchor_staking_relayer.MarketState.{State}
use anchor_staking_relayer.MarketState.Sample.{
  sample_config, sample_store, sample_store-IsStore, sample_borrow, sample_env, sample_storage,
  accrued_state,
}
use anchor_staking_relayer.Querier.{query_balance, query_supply}
use anchor_staking_relayer.Querier.Tax.{reserved_tax, chain_tax}
use anchor_staking_relayer.Deposit.Rate.{compute_exchange_rate_raw}
use anchor_staking_relayer.Deposit.Rate.Vault.{Vault, IsRated, Step}
use anchor_staking_relayer.Deposit.{accrued, funds_in, deposit_stable, redeem_stable}
use anchor_staking_relayer.Deposit.Refinement.{deposit_stable-Step, redeem_stable-Step}

abbrev depositor : MessageInfo
depositor = record {
  sender = text "alice";
  funds = record { denom = text "uusd"; amount = 262_500 } ∷ [];
}

-- Before the deposit the contract holds 737_500, and 1_000_000 with it.
abbrev before_deposit : Vault
before_deposit = record {
  state = accrued_state;
  supply = 400_000;
  balance = 737_500;
  rate = 1_968_750_000_000_000_000;
}

before_deposit-IsRated : IsRated checked before_deposit
unfolding compute_exchange_rate_raw checked
before_deposit-IsRated = record {
  in_range = omega arith;
  rated = refl;
  worth_something = omega arith;
}

abbrev before_redemption : Vault
before_redemption = record before_deposit { balance = 1_000_000; rate = 2_625_000_000_000_000_000 }

before_redemption-IsRated : IsRated checked before_redemption
unfolding compute_exchange_rate_raw checked
before_redemption-IsRated = record {
  in_range = omega arith;
  rated = refl;
  worth_something = omega arith;
}

abbrev more_supply : State
more_supply = record accrued_state { prev_aterra_supply = 533_333 }

abbrev less_supply : State
less_supply = record accrued_state { prev_aterra_supply = 399_000 }

deposit_stable-Step_example :
    (resp : Response) × (deposit_stable checked sample_deps sample_store sample_borrow sample_env
        depositor sample_storage
      ≡ (ok resp, (sample_config, more_supply)))
    × (resp.messages ≡ wasm_execute (text "aterra") [] (4 ∷ 133_333 ∷ text "alice") ∷ [])
    × (sample_deps.cw20_execute_msg.from_binary (4 ∷ 133_333 ∷ text "alice")
        ≡ ok (mint (text "alice") 133_333))
    × Step checked before_deposit (record before_deposit {
      supply = 533_333;
      balance = 1_000_000;
      rate = 1_968_751_230_470_000_000;
    })
unfolding funds_in bytes_eq accrued query_balance query_supply
deposit_stable-Step_example =
    deposit_stable-Step checked checked-IsExact sample_deps sample_store sample_store-IsStore
      sample_borrow sample_env sample_config sample_storage (sample_config, more_supply)
      (text "aterra") (text "market") (4 ∷ 133_333 ∷ text "alice") before_deposit
      before_deposit-IsRated cw20_execute_msg-RoundTrips refl refl refl refl depositor
      1_968_751_230_470_000_000 (omega arith) (omega arith) (omega arith) (omega arith) refl refl
      refl refl

redeem_stable-Step_example :
    (resp : Response) × (paid : Coin) × (redeem_stable checked sample_deps sample_store
        sample_borrow sample_env
        (text "bob")
        1_000
        sample_storage
      ≡ (ok resp, (sample_config, less_supply)))
    × (resp.messages
        ≡ wasm_execute (text "aterra") [] (5 ∷ 1_000 ∷ [])
          ∷ bank_send (text "bob") (paid ∷ [])
          ∷ [])
    × (sample_deps.cw20_execute_msg.from_binary (5 ∷ 1_000 ∷ []) ≡ ok (burn 1_000))
    × (paid.denom ≡ text "uusd")
    × (paid.amount + reserved_tax 10_000_000_000_000_000 1_000_000 2_625 ≡ 2_625)
    × (sample_store.read_state (sample_config, less_supply) ≡ ok less_supply)
    × Step checked before_redemption (record before_redemption {
      supply = 399_000;
      balance = 997_375;
      rate = 2_625_000_000_000_000_000;
    })
    × Step checked
        (record before_redemption {
          supply = 399_000;
          balance = 997_375;
          rate = 2_625_000_000_000_000_000;
        })
        (record before_redemption {
          supply = 399_000;
          balance =
              1_000_000 - (paid.amount + chain_tax 10_000_000_000_000_000 1_000_000 paid.amount);
          rate = 2_625_002_506_265_664_160;
        })
unfolding accrued query_balance query_supply
redeem_stable-Step_example =
    redeem_stable-Step checked checked-IsExact sample_deps sample_store sample_store-IsStore
      sample_borrow sample_env sample_config sample_storage (sample_config, less_supply)
      (text "aterra") (text "market") (5 ∷ 1_000 ∷ []) before_redemption before_redemption-IsRated
      cw20_execute_msg-RoundTrips refl refl refl refl (text "bob") 1_000 10_000_000_000_000_000
      1_000_000 2_625_000_000_000_000_000 2_625_002_506_265_664_160 refl refl refl (omega arith)
      (omega arith) (omega arith) (omega arith) (omega arith) (omega arith) refl refl refl refl
