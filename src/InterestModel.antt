-- ===== src/InterestModel.antt =====
-- packages/moneymarket/src/interest_model.rs: the messages of the interest model contract.
use anchor_staking_relayer.Prelude.{ℕ, Option}
use anchor_staking_relayer.Bytes.{Text}

pub record InstantiateMsg : Type 0 where
  pub owner : Text
  pub base_rate : ℕ
  pub interest_multiplier : ℕ

pub data ExecuteMsg : Type 0 where
  -- owner, base_rate and interest_multiplier
  update_config : Option Text → Option ℕ → Option ℕ → ExecuteMsg

pub data QueryMsg : Type 0 where
  config : QueryMsg
  -- market_balance, total_liabilities and total_reserves
  borrow_rate : ℕ → ℕ → ℕ → QueryMsg

pub record ConfigResponse : Type 0 where
  pub owner : Text
  pub base_rate : ℕ
  pub interest_multiplier : ℕ

pub record BorrowRateResponse : Type 0 where
  pub rate : ℕ
