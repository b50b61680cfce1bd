-- ===== src/Contract/Tests.antt =====
-- The theorems on the access to the contract, at concrete calls.
use anchor_staking_relayer.Prelude.{◌≡◌, refl, [], ◌∷◌, arith}
use anchor_staking_relayer.Bytes.{text, bytes_eq}
use anchor_staking_relayer.Outcome.{ok}
use anchor_staking_relayer.BigNumber.Checked.{checked}
use anchor_staking_relayer.Platform.{Response, MessageInfo, Cw20ReceiveMsg}
use anchor_staking_relayer.Deps.Sample.{sample_deps}
use anchor_staking_relayer.Market
use anchor_staking_relayer.Market.{
  redeem_stable, claim_rewards, register_contracts, RegisterContracts,
}
use anchor_staking_relayer.MarketState.Sample.{
  Storage, sample_config, sample_store, sample_borrow, sample_env, sample_storage,
}
use anchor_staking_relayer.Querier.{query_balance, query_supply, deduct_tax}
use anchor_staking_relayer.Deposit.Rate.{
  compute_exchange_rate, compute_exchange_rate_raw, assert_redeem_amount,
}
use anchor_staking_relayer.Deposit
use anchor_staking_relayer.Deposit.{redeem_response}
use anchor_staking_relayer.Handler.{pure}
use anchor_staking_relayer.Contract.{Handlers, receive_cw20, execute}
use anchor_staking_relayer.Contract.Sample.{refusing}
use anchor_staking_relayer.Contract.Frame.{KeepsAll, execute-Keeps}
use anchor_staking_relayer.Contract.Addresses.{IsAddress, execute_validates}
use anchor_staking_relayer.Contract.Access.{receive_cw20_only_aterra}

abbrev from_aterra : MessageInfo
from_aterra = record { sender = text "aterra"; funds = [] }

abbrev from_mallory : MessageInfo
from_mallory = record { sender = text "mallory"; funds = [] }

abbrev hook : Cw20ReceiveMsg
hook = record { sender = text "bob"; amount = 1_000; msg = [] }

receive_run :
    (receive_cw20 checked sample_deps sample_store sample_borrow sample_env from_aterra hook
      sample_storage).0
    ≡ ok (
        redeem_response
          (text "aterra")
          (5 ∷ 1_000 ∷ [])
          (text "bob")
          (record { denom = text "uusd"; amount = 2_599 })
          1_000
          2_625)
unfolding receive_cw20 Deposit.redeem_stable Deposit.redeem_accrued Deposit.redeem_messages
    compute_exchange_rate compute_exchange_rate_raw query_balance query_supply checked
    assert_redeem_amount deduct_tax bytes_eq
receive_run = refl

receive_cw20_only_aterra_example :
    sample_deps.api.addr_canonicalize (text "aterra") ≡ ok (text "aterra")
receive_cw20_only_aterra_example =
    receive_cw20_only_aterra checked sample_deps sample_store sample_borrow sample_env from_aterra
      hook sample_config sample_storage refl receive_run

abbrev no_effects : Response
no_effects = record { submessages = []; messages = []; attributes = [] }

-- Handlers that do nothing, but that succeed.
abbrev accepting : Handlers Storage
accepting = record {
  register_contracts = λ a b c d e. pure no_effects;
  update_config = λ env info a b c d. pure no_effects;
  execute_epoch_operations = λ env info a b c d. pure no_effects;
  repay_stable = λ env info. pure no_effects;
  repay_stable_from_liquidation = λ env info a b. pure no_effects;
}

abbrev contracts : RegisterContracts
contracts = record {
  overseer_contract = text "overseer";
  interest_model = text "interest";
  distribution_model = text "distribution";
  collector_contract = text "collector";
  distributor_contract = text "distributor";
}

execute_validates_example :
    IsAddress sample_deps.api (text "overseer")
    × IsAddress sample_deps.api (text "interest")
    × IsAddress sample_deps.api (text "distribution")
    × IsAddress sample_deps.api (text "collector")
    × IsAddress sample_deps.api (text "distributor")
unfolding execute
execute_validates_example =
    execute_validates checked sample_deps sample_store sample_borrow accepting sample_env
      from_mallory sample_storage (register_contracts contracts) tt refl

refusing-KeepsAll : KeepsAll (λ (s : Storage). s.0) refusing
refusing-KeepsAll = record {
  register_contracts = λ a b c e f s. refl;
  update_config = λ env info a b c f s. refl;
  execute_epoch_operations = λ env info a b c e s. refl;
  repay_stable = λ env info s. refl;
  repay_stable_from_liquidation = λ env info a b s. refl;
}

-- A redemption writes the state, and not the config beside it.
execute-Keeps_example :
    (receive_cw20 checked sample_deps sample_store sample_borrow sample_env from_aterra hook
      sample_storage).1.0
    ≡ sample_config
unfolding execute
execute-Keeps_example =
    execute-Keeps (λ (s : Storage). s.0) checked sample_deps sample_store sample_borrow
      (λ st s s' stored. ground (arith, stored)) refusing refusing-KeepsAll sample_env from_aterra
      (Market.receive hook) tt sample_storage
