-- ===== src/DistributionModel.antt =====
-- packages/moneymarket/src/distribution_model.rs: the messages of the distribution model contract.
use anchor_staking_relayer.Prelude.{ℕ, Option}
use anchor_staking_relayer.Bytes.{Text}

pub record InstantiateMsg : Type 0 where
  pub owner : Text
  pub emission_cap : ℕ
  pub emission_floor : ℕ
  pub increment_multiplier : ℕ
  pub decrement_multiplier : ℕ

pub record UpdateConfig : Type 0 where
  pub owner : Option Text
  pub emission_cap : Option ℕ
  pub emission_floor : Option ℕ
  pub increment_multiplier : Option ℕ
  pub decrement_multiplier : Option ℕ

pub data ExecuteMsg : Type 0 where
  update_config : UpdateConfig → ExecuteMsg

pub record AncEmissionRate : Type 0 where
  pub deposit_rate : ℕ
  pub target_deposit_rate : ℕ
  pub threshold_deposit_rate : ℕ
  pub current_emission_rate : ℕ

pub data QueryMsg : Type 0 where
  config : QueryMsg
  anc_emission_rate : AncEmissionRate → QueryMsg

pub record ConfigResponse : Type 0 where
  pub owner : Text
  pub emission_cap : ℕ
  pub emission_floor : ℕ
  pub increment_multiplier : ℕ
  pub decrement_multiplier : ℕ

pub record AncEmissionRateResponse : Type 0 where
  pub emission_rate : ℕ
