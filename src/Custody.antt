-- ===== src/Custody.antt =====
-- packages/moneymarket/src/custody.rs: the messages of the custody contract of a collateral.
use anchor_staking_relayer.Prelude.{ℕ, Option, List}
use anchor_staking_relayer.Bytes.{Text}
use anchor_staking_relayer.Platform.{Cw20ReceiveMsg}

pub data ExecuteMsg : Type 0 where
  receive : Cw20ReceiveMsg → ExecuteMsg
  -- owner and liquidation_contract
  update_config : Option Text → Option Text → ExecuteMsg
  -- borrower and amount
  lock_collateral : Text → ℕ → ExecuteMsg
  -- borrower and amount
  unlock_collateral : Text → ℕ → ExecuteMsg
  distribute_rewards : ExecuteMsg
  -- liquidator, borrower and amount
  liquidate_collateral : Text → Text → ℕ → ExecuteMsg
  -- amount
  withdraw_collateral : Option ℕ → ExecuteMsg

pub data Cw20HookMsg : Type 0 where
  deposit_collateral : Cw20HookMsg

pub data QueryMsg : Type 0 where
  config : QueryMsg
  -- address
  borrower : Text → QueryMsg
  -- start_after and limit
  borrowers : Option Text → Option ℕ → QueryMsg

pub record BorrowerResponse : Type 0 where
  pub borrower : Text
  pub balance : ℕ
  pub spendable : ℕ

pub record BorrowersResponse : Type 0 where
  pub borrowers : List BorrowerResponse

pub record BAssetInfo : Type 0 where
  pub name : Text
  pub symbol : Text
  pub decimals : ℕ

pub record InstantiateMsg : Type 0 where
  pub owner : Text
  pub collateral_token : Text
  pub overseer_contract : Text
  pub market_contract : Text
  pub reward_contract : Text
  pub liquidation_contract : Text
  pub stable_denom : Text
  pub basset_info : BAssetInfo

pub record ConfigResponse : Type 0 where
  pub owner : Text
  pub collateral_token : Text
  pub overseer_contract : Text
  pub market_contract : Text
  pub reward_contract : Text
  pub liquidation_contract : Text
  pub stable_denom : Text
  pub basset_info : BAssetInfo
