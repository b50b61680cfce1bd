-- ===== src/Liquidation.antt =====
-- packages/moneymarket/src/liquidation.rs: the messages of the liquidation contract.
use anchor_staking_relayer.Prelude.{ℕ, Option, List}
use anchor_staking_relayer.Bytes.{Text}
use anchor_staking_relayer.Platform.{Cw20ReceiveMsg}
use anchor_staking_relayer.Tokens.{TokensHuman}

pub record InstantiateMsg : Type 0 where
  pub owner : Text
  pub oracle_contract : Text
  pub stable_denom : Text
  pub safe_ratio : ℕ
  pub bid_fee : ℕ
  pub max_premium_rate : ℕ
  pub liquidation_threshold : ℕ
  pub price_timeframe : ℕ

pub record UpdateConfig : Type 0 where
  pub owner : Option Text
  pub oracle_contract : Option Text
  pub stable_denom : Option Text
  pub safe_ratio : Option ℕ
  pub bid_fee : Option ℕ
  pub max_premium_rate : Option ℕ
  pub liquidation_threshold : Option ℕ
  pub price_timeframe : Option ℕ

pub data ExecuteMsg : Type 0 where
  receive : Cw20ReceiveMsg → ExecuteMsg
  update_config : UpdateConfig → ExecuteMsg
  -- collateral_token and premium_rate
  submit_bid : Text → ℕ → ExecuteMsg
  -- collateral_token and amount
  retract_bid : Text → Option ℕ → ExecuteMsg

pub data Cw20HookMsg : Type 0 where
  -- liquidator, fee_address and repay_address
  execute_bid : Text → Option Text → Option Text → Cw20HookMsg

pub record LiquidationAmount : Type 0 where
  pub borrow_amount : ℕ
  pub borrow_limit : ℕ
  pub collaterals : TokensHuman
  pub collateral_prices : List ℕ

pub data QueryMsg : Type 0 where
  config : QueryMsg
  liquidation_amount : LiquidationAmount → QueryMsg
  -- collateral_token and bidder
  bid : Text → Text → QueryMsg
  -- bidder, start_after and limit
  bids_by_user : Text → Option Text → Option ℕ → QueryMsg
  -- collateral_token, start_after and limit
  bids_by_collateral : Text → Option Text → Option ℕ → QueryMsg

pub record ConfigResponse : Type 0 where
  pub owner : Text
  pub oracle_contract : Text
  pub stable_denom : Text
  pub safe_ratio : ℕ
  pub bid_fee : ℕ
  pub max_premium_rate : ℕ
  pub liquidation_threshold : ℕ
  pub price_timeframe : ℕ

pub record LiquidationAmountResponse : Type 0 where
  pub collaterals : TokensHuman

pub record BidResponse : Type 0 where
  pub collateral_token : Text
  pub bidder : Text
  pub amount : ℕ
  pub premium_rate : ℕ

pub record BidsResponse : Type 0 where
  pub bids : List BidResponse
