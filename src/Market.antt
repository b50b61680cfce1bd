-- ===== src/Market.antt =====
-- packages/moneymarket/src/market.rs: the messages of the money market contract.
use anchor_staking_relayer.Prelude.{ℕ, Option, List}
use anchor_staking_relayer.Bytes.{Text}
use anchor_staking_relayer.Platform.{Cw20ReceiveMsg}

pub record InstantiateMsg : Type 0 where
  pub owner_addr : Text
  pub stable_denom : Text
  pub aterra_code_id : ℕ
  pub anc_emission_rate : ℕ
  pub max_borrow_factor : ℕ

pub record RegisterContracts : Type 0 where
  pub overseer_contract : Text
  pub interest_model : Text
  pub distribution_model : Text
  pub collector_contract : Text
  pub distributor_contract : Text

pub record UpdateConfig : Type 0 where
  pub owner_addr : Option Text
  pub max_borrow_factor : Option ℕ
  pub interest_model : Option Text
  pub distribution_model : Option Text

pub record EpochOperations : Type 0 where
  pub deposit_rate : ℕ
  pub target_deposit_rate : ℕ
  pub threshold_deposit_rate : ℕ
  pub distributed_interest : ℕ

pub data ExecuteMsg : Type 0 where
  receive : Cw20ReceiveMsg → ExecuteMsg
  register_contracts : RegisterContracts → ExecuteMsg
  update_config : UpdateConfig → ExecuteMsg
  -- borrower and prev_balance
  repay_stable_from_liquidation : Text → ℕ → ExecuteMsg
  execute_epoch_operations : EpochOperations → ExecuteMsg
  deposit_stable : ExecuteMsg
  -- borrow_amount and to
  borrow_stable : ℕ → Option Text → ExecuteMsg
  repay_stable : ExecuteMsg
  claim_rewards : Option Text → ExecuteMsg

pub data Cw20HookMsg : Type 0 where
  redeem_stable : Cw20HookMsg

pub data QueryMsg : Type 0 where
  config : QueryMsg
  state : Option ℕ → QueryMsg
  -- block_height and distributed_interest
  epoch_state : Option ℕ → Option ℕ → QueryMsg
  -- borrower and block_height
  borrower_info : Text → Option ℕ → QueryMsg
  -- start_after and limit
  borrower_infos : Option Text → Option ℕ → QueryMsg

pub record ConfigResponse : Type 0 where
  pub owner_addr : Text
  pub aterra_contract : Text
  pub interest_model : Text
  pub distribution_model : Text
  pub overseer_contract : Text
  pub collector_contract : Text
  pub distributor_contract : Text
  pub stable_denom : Text
  pub max_borrow_factor : ℕ

pub record StateResponse : Type 0 where
  pub total_liabilities : ℕ
  pub total_reserves : ℕ
  pub last_interest_updated : ℕ
  pub last_reward_updated : ℕ
  pub global_interest_index : ℕ
  pub global_reward_index : ℕ
  pub anc_emission_rate : ℕ
  pub prev_aterra_supply : ℕ
  pub prev_exchange_rate : ℕ

pub record EpochStateResponse : Type 0 where
  pub exchange_rate : ℕ
  pub aterra_supply : ℕ

pub record BorrowerInfoResponse : Type 0 where
  pub borrower : Text
  pub interest_index : ℕ
  pub reward_index : ℕ
  pub loan_amount : ℕ
  pub pending_rewards : ℕ

pub record BorrowerInfosResponse : Type 0 where
  pub borrower_infos : List BorrowerInfoResponse
