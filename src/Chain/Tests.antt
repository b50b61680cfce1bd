-- ===== src/Chain/Tests.antt =====
-- A deposit and then a redemption on a small chain.
use anchor_staking_relayer.Prelude.{
  ℕ, ◌+◌, ◌-◌, ◌≡◌, refl, ltb, if◌then◌else◌, Option, none, some, [], ◌∷◌, arith,
}
use anchor_staking_relayer.Bytes.{text, bytes_eq}
use anchor_staking_relayer.Outcome.{ok, err, panic}
use anchor_staking_relayer.BigNumber.Checked.{
  checked, checked-IsExact, checked-PanicsOnZero, checked-into_uint128,
}
use anchor_staking_relayer.Platform.{
  StdResult, other, Binary, CosmosMsg, wasm_execute, bank_send, mint, burn, MessageInfo,
  Cw20ReceiveMsg,
}
use anchor_staking_relayer.Deps.{QueryRequest, bank_all_balances, bank_balance, wasm_smart}
use anchor_staking_relayer.Deps.Sample.{sample_deps, cw20_execute_msg-RoundTrips}
use anchor_staking_relayer.Market
use anchor_staking_relayer.Market.{ExecuteMsg}
use anchor_staking_relayer.MarketState.{State}
use anchor_staking_relayer.MarketState.Sample.{
  sample_config, sample_store, sample_store-IsStore, sample_borrow, sample_env, sample_storage,
  accrued_state,
}
use anchor_staking_relayer.Querier.{query_balance, query_supply, deduct_tax}
use anchor_staking_relayer.Querier.Tax.{chain_tax}
use anchor_staking_relayer.Deposit.Rate.{
  compute_exchange_rate, compute_exchange_rate_raw, assert_redeem_amount,
}
use anchor_staking_relayer.Deposit
use anchor_staking_relayer.Deposit.{funds_in, deposit_response, redeem_response}
use anchor_staking_relayer.Contract.{execute, receive_cw20, receive_redeem}
use anchor_staking_relayer.Contract.Sample.{refusing}
use anchor_staking_relayer.Chain.{IsNarrowing, IsPlatform, deps_at}
use anchor_staking_relayer.Chain.Effects.{DepositEffects, RedemptionEffects}
use anchor_staking_relayer.Chain.Deposits.{deposit_settles}
use anchor_staking_relayer.Chain.Redemptions.{redemption_settles}

-- The chain reports the balance and the supply.
abbrev small_chain : ℕ → ℕ → QueryRequest → StdResult Binary
small_chain supply held (bank_all_balances a) = err (other (text "parse"))
small_chain supply held (bank_balance a d) = ok (held ∷ d)
small_chain supply held (wasm_smart a msg) = ok (supply ∷ [])

abbrev tax_rate : ℕ
tax_rate = 10_000_000_000_000_000

-- The aTerra token mints and burns, and the bank takes a payment and its tax off the balance.
abbrev small_deliver : CosmosMsg → ℕ × ℕ → Option (ℕ × ℕ)
small_deliver (wasm_execute a funds msg) (supply, held) =
    elim (sample_deps.cw20_execute_msg.from_binary msg) [
      | ok (mint recipient amount) ↦ some (supply + amount, held)
      | ok (burn amount) ↦ if ltb supply amount then none else some (supply - amount, held)
      | err e ↦ none
      | panic ↦ none
    ]
small_deliver (bank_send to []) (supply, held) = some (supply, held)
small_deliver (bank_send to (c ∷ cs)) (supply, held) =
    let cost = c.amount + chain_tax tax_rate 1_000_000 c.amount in
    if ltb held cost then none else some (supply, held - cost)

checked-IsNarrowing : IsNarrowing checked
checked-IsNarrowing = record { kept = checked-into_uint128 }

small-IsPlatform :
    IsPlatform sample_deps small_chain small_deliver sample_config
      (text "market")
      (text "aterra")
      tax_rate
      1_000_000
unfolding query_balance query_supply
small-IsPlatform = record {
  aterra_known = refl;
  contract_known = refl;
  trips = cw20_execute_msg-RoundTrips;
  supplied = λ supply held. refl;
  holds = λ supply held. refl;
  taxed = refl;
  capped = refl;
  tax_fits = omega arith;
  mints = λ msg recipient amount supply held after decoded done. ground (arith, decoded, done);
  burns = λ msg amount supply held after decoded done. ground (arith, decoded, done);
  pays = λ to coin supply held after other denom done. ground (arith, done);
}

abbrev deposited_state : State
deposited_state = record accrued_state { prev_aterra_supply = 533_333 }

abbrev redeemed_state : State
redeemed_state = record accrued_state { prev_aterra_supply = 532_333 }

abbrev depositor : MessageInfo
depositor = record {
  sender = text "alice";
  funds = record { denom = text "uusd"; amount = 262_500 } ∷ [];
}

abbrev hook : Cw20ReceiveMsg
hook = record { sender = text "bob"; amount = 1_000; msg = [] }

-- 262_500 come with the call, and 737_500 are there: 133_333 aTerra are minted.
deposit_run :
    execute checked
      (deps_at sample_deps small_chain 400_000 1_000_000)
      sample_store
      sample_borrow
      refusing
      sample_env
      depositor
      ExecuteMsg.deposit_stable
      tt
      sample_storage
    ≡ (
      ok (
          deposit_response
            (text "aterra")
            (4 ∷ 133_333 ∷ text "alice")
            (text "alice")
            133_333
            262_500),
      (sample_config, deposited_state),
    )
unfolding execute funds_in bytes_eq Deposit.accrued Deposit.deposit_stable Deposit.deposit_accrued
    Deposit.deposit_message compute_exchange_rate compute_exchange_rate_raw query_balance
    query_supply checked
deposit_run = refl

deposit_settles_example :
    DepositEffects checked sample_store sample_config accrued_state 400_000 737_500 533_333
      1_000_000
      (sample_config, deposited_state)
      262_500
unfolding funds_in bytes_eq Deposit.accrued
deposit_settles_example =
    deposit_settles checked checked-IsExact checked-PanicsOnZero checked-IsNarrowing sample_deps
      small_chain small_deliver sample_store sample_store-IsStore sample_borrow sample_config
      (text "market") (text "aterra") tax_rate 1_000_000 small-IsPlatform 400_000 737_500
      sample_storage refl sample_env depositor
      (deposit_response (text "aterra") (4 ∷ 133_333 ∷ text "alice") (text "alice") 133_333 262_500)
      (sample_config, deposited_state) 533_333 1_000_000 refusing accrued_state refl (omega arith)
      (omega arith) deposit_run refl

-- 1_000 aTerra are worth 1_968, of which 1_948 are paid and 19 go to the tax of the chain.
redemption_run :
    execute checked
      (deps_at sample_deps small_chain 533_333 1_000_000)
      sample_store
      sample_borrow
      refusing
      sample_env
      (record { sender = text "aterra"; funds = [] })
      (Market.receive hook)
      tt
      (sample_config, deposited_state)
    ≡ (
      ok (
          redeem_response
            (text "aterra")
            (5 ∷ 1_000 ∷ [])
            (text "bob")
            (record { denom = text "uusd"; amount = 1_948 })
            1_000
            1_968),
      (sample_config, redeemed_state),
    )
unfolding execute receive_cw20 receive_redeem bytes_eq Deposit.accrued Deposit.redeem_stable
    Deposit.redeem_accrued Deposit.redeem_messages compute_exchange_rate compute_exchange_rate_raw
    query_balance query_supply assert_redeem_amount deduct_tax checked
redemption_run = refl

redemption_settles_example :
    RedemptionEffects checked sample_store sample_config deposited_state 533_333 1_000_000 532_333
      998_033
      (sample_config, redeemed_state)
      tax_rate
      1_000_000
      1_000
unfolding Deposit.accrued
redemption_settles_example =
    redemption_settles checked checked-IsExact checked-IsNarrowing sample_deps small_chain
      small_deliver sample_store sample_store-IsStore sample_borrow refusing sample_config
      (text "market") (text "aterra") tax_rate 1_000_000 small-IsPlatform 533_333 1_000_000
      (sample_config, deposited_state) refl sample_env refl
      (record { sender = text "aterra"; funds = [] }) hook (text "bob") refl (ground arith)
      deposited_state refl
      (redeem_response (text "aterra") (5 ∷ 1_000 ∷ []) (text "bob")
        (record { denom = text "uusd"; amount = 1_948 }) 1_000 1_968)
      (sample_config, redeemed_state) 532_333 998_033 (omega arith) (omega arith) redemption_run
      refl
