-- ===== src/Overseer.antt =====
-- packages/moneymarket/src/overseer.rs: the messages of the overseer contract.
use anchor_staking_relayer.Prelude.{ℕ, Option, List}
use anchor_staking_relayer.Bytes.{Text}
use anchor_staking_relayer.Tokens.{TokensHuman}

pub record InstantiateMsg : Type 0 where
  pub owner_addr : Text
  pub oracle_contract : Text
  pub market_contract : Text
  pub liquidation_contract : Text
  pub collector_contract : Text
  pub stable_denom : Text
  pub epoch_period : ℕ
  pub threshold_deposit_rate : ℕ
  pub target_deposit_rate : ℕ
  pub buffer_distribution_factor : ℕ
  pub anc_purchase_factor : ℕ
  pub price_timeframe : ℕ

pub record UpdateConfig : Type 0 where
  pub owner_addr : Option Text
  pub oracle_contract : Option Text
  pub liquidation_contract : Option Text
  pub threshold_deposit_rate : Option ℕ
  pub target_deposit_rate : Option ℕ
  pub buffer_distribution_factor : Option ℕ
  pub anc_purchase_factor : Option ℕ
  pub epoch_period : Option ℕ
  pub price_timeframe : Option ℕ

pub record Whitelist : Type 0 where
  pub name : Text
  pub symbol : Text
  pub collateral_token : Text
  pub custody_contract : Text
  pub max_ltv : ℕ

pub data ExecuteMsg : Type 0 where
  update_config : UpdateConfig → ExecuteMsg
  whitelist : Whitelist → ExecuteMsg
  -- collateral_token, custody_contract and max_ltv
  update_whitelist : Text → Option Text → Option ℕ → ExecuteMsg
  execute_epoch_operations : ExecuteMsg
  -- interest_buffer and distributed_interest
  update_epoch_state : ℕ → ℕ → ExecuteMsg
  -- collaterals
  lock_collateral : TokensHuman → ExecuteMsg
  -- collaterals
  unlock_collateral : TokensHuman → ExecuteMsg
  -- borrower
  liquidate_collateral : Text → ExecuteMsg

pub data QueryMsg : Type 0 where
  config : QueryMsg
  epoch_state : QueryMsg
  -- collateral_token, start_after and limit
  whitelist : Option Text → Option Text → Option ℕ → QueryMsg
  -- borrower
  collaterals : Text → QueryMsg
  -- start_after and limit
  all_collaterals : Option Text → Option ℕ → QueryMsg
  -- borrower and block_time
  borrow_limit : Text → Option ℕ → QueryMsg

pub record ConfigResponse : Type 0 where
  pub owner_addr : Text
  pub oracle_contract : Text
  pub market_contract : Text
  pub liquidation_contract : Text
  pub collector_contract : Text
  pub threshold_deposit_rate : ℕ
  pub target_deposit_rate : ℕ
  pub buffer_distribution_factor : ℕ
  pub anc_purchase_factor : ℕ
  pub stable_denom : Text
  pub epoch_period : ℕ
  pub price_timeframe : ℕ

pub record WhitelistResponseElem : Type 0 where
  pub name : Text
  pub symbol : Text
  pub max_ltv : ℕ
  pub custody_contract : Text
  pub collateral_token : Text

pub record WhitelistResponse : Type 0 where
  pub elems : List WhitelistResponseElem

pub record CollateralsResponse : Type 0 where
  pub borrower : Text
  pub collaterals : TokensHuman

pub record AllCollateralsResponse : Type 0 where
  pub all_collaterals : List CollateralsResponse

pub record BorrowLimitResponse : Type 0 where
  pub borrower : Text
  pub borrow_limit : ℕ
