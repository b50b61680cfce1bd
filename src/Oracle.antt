-- ===== src/Oracle.antt =====
-- packages/moneymarket/src/oracle.rs: the messages of the price oracle.
use anchor_staking_relayer.Prelude.{ℕ, Option, List}
use anchor_staking_relayer.Bytes.{Text}

pub record InstantiateMsg : Type 0 where
  pub owner : Text
  pub base_asset : Text

pub data ExecuteMsg : Type 0 where
  update_config : Option Text → ExecuteMsg
  -- the asset and its feeder
  register_feeder : Text → Text → ExecuteMsg
  -- the assets and their prices
  feed_price : List (Text × ℕ) → ExecuteMsg

pub data QueryMsg : Type 0 where
  config : QueryMsg
  feeder : Text → QueryMsg
  -- base and quote
  price : Text → Text → QueryMsg
  -- `start_after` and `limit`
  prices : Option Text → Option ℕ → QueryMsg

pub record ConfigResponse : Type 0 where
  pub owner : Text
  pub base_asset : Text

pub record FeederResponse : Type 0 where
  pub asset : Text
  pub feeder : Text

pub record PriceResponse : Type 0 where
  pub rate : ℕ
  pub last_updated_base : ℕ
  pub last_updated_quote : ℕ

pub record PricesResponseElem : Type 0 where
  pub asset : Text
  pub price : ℕ
  pub last_updated_time : ℕ

pub record PricesResponse : Type 0 where
  pub prices : List PricesResponseElem
