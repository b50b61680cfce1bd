-- ===== src/LiquidationQueue.antt =====
-- packages/moneymarket/src/liquidation_queue.rs: the messages of the liquidation queue contract.
use anchor_staking_relayer.Prelude.{ℕ, Option, List}
use anchor_staking_relayer.Bytes.{Text}
use anchor_staking_relayer.Platform.{Cw20ReceiveMsg}
use anchor_staking_relayer.Tokens.{TokensHuman}

pub record InstantiateMsg : Type 0 where
  pub owner : Text
  pub oracle_contract : Text
  pub stable_denom : Text
  pub safe_ratio : ℕ
  pub bid_fee : ℕ
  pub liquidator_fee : ℕ
  pub liquidation_threshold : ℕ
  pub price_timeframe : ℕ
  pub waiting_period : ℕ
  pub overseer : Text

pub record UpdateConfig : Type 0 where
  pub owner : Option Text
  pub oracle_contract : Option Text
  pub safe_ratio : Option ℕ
  pub bid_fee : Option ℕ
  pub liquidator_fee : Option ℕ
  pub liquidation_threshold : Option ℕ
  pub price_timeframe : Option ℕ
  pub waiting_period : Option ℕ
  pub overseer : Option Text

pub record WhitelistCollateral : Type 0 where
  pub collateral_token : Text
  pub bid_threshold : ℕ
  pub max_slot : ℕ
  pub premium_rate_per_slot : ℕ

pub data ExecuteMsg : Type 0 where
  receive : Cw20ReceiveMsg → ExecuteMsg
  update_config : UpdateConfig → ExecuteMsg
  whitelist_collateral : WhitelistCollateral → ExecuteMsg
  -- collateral_token, bid_threshold and max_slot
  update_collateral_info : Text → Option ℕ → Option ℕ → ExecuteMsg
  -- collateral_token and premium_slot
  submit_bid : Text → ℕ → ExecuteMsg
  -- bid_idx and amount
  retract_bid : ℕ → Option ℕ → ExecuteMsg
  -- collateral_token and bids_idx
  activate_bids : Text → Option (List ℕ) → ExecuteMsg
  -- collateral_token and bids_idx
  claim_liquidations : Text → Option (List ℕ) → ExecuteMsg

pub data Cw20HookMsg : Type 0 where
  -- liquidator, fee_address and repay_address
  execute_bid : Text → Option Text → Option Text → Cw20HookMsg

pub record LiquidationAmount : Type 0 where
  pub borrow_amount : ℕ
  pub borrow_limit : ℕ
  pub collaterals : TokensHuman
  pub collateral_prices : List ℕ

pub record BidsByUser : Type 0 where
  pub collateral_token : Text
  pub bidder : Text
  pub start_after : Option ℕ
  pub limit : Option ℕ

pub data QueryMsg : Type 0 where
  config : QueryMsg
  liquidation_amount : LiquidationAmount → QueryMsg
  -- collateral_token
  collateral_info : Text → QueryMsg
  -- bid_idx
  bid : ℕ → QueryMsg
  bids_by_user : BidsByUser → QueryMsg
  -- collateral_token and bid_slot
  bid_pool : Text → ℕ → QueryMsg
  -- collateral_token, start_after and limit
  bid_pools_by_collateral : Text → Option ℕ → Option ℕ → QueryMsg

pub record ConfigResponse : Type 0 where
  pub owner : Text
  pub oracle_contract : Text
  pub stable_denom : Text
  pub safe_ratio : ℕ
  pub bid_fee : ℕ
  pub liquidator_fee : ℕ
  pub liquidation_threshold : ℕ
  pub price_timeframe : ℕ
  pub waiting_period : ℕ
  pub overseer : Text

pub record LiquidationAmountResponse : Type 0 where
  pub collaterals : TokensHuman

pub record BidResponse : Type 0 where
  pub idx : ℕ
  pub collateral_token : Text
  pub premium_slot : ℕ
  pub bidder : Text
  pub amount : ℕ
  pub product_snapshot : ℕ
  pub sum_snapshot : ℕ
  pub pending_liquidated_collateral : ℕ
  pub wait_end : Option ℕ
  pub epoch_snapshot : ℕ
  pub scale_snapshot : ℕ

pub record BidsResponse : Type 0 where
  pub bids : List BidResponse

pub record BidPoolResponse : Type 0 where
  pub sum_snapshot : ℕ
  pub product_snapshot : ℕ
  pub total_bid_amount : ℕ
  pub premium_rate : ℕ
  pub current_epoch : ℕ
  pub current_scale : ℕ

pub record CollateralInfoResponse : Type 0 where
  pub collateral_token : Text
  pub bid_threshold : ℕ
  pub max_slot : ℕ
  pub premium_rate_per_slot : ℕ

pub record BidPoolsResponse : Type 0 where
  pub bid_pools : List BidPoolResponse
