-- ===== src/MarketState/Sample.antt =====
-- A small contract for the tests: its storage is the config and the state, and the interest and
-- the rewards only note the block.
use anchor_staking_relayer.Prelude.{some, arith}
use anchor_staking_relayer.Bytes.{text}
use anchor_staking_relayer.Outcome.{ok}
use anchor_staking_relayer.Platform.{Env}
use anchor_staking_relayer.MarketState.{Config, State, Store, IsStore, Borrow}

abbrev pub sample_config : Config
sample_config = record {
  contract_addr = text "market";
  owner_addr = text "owner";
  aterra_contract = text "aterra";
  overseer_contract = text "overseer";
  interest_model = text "interest";
  distribution_model = text "distribution";
  collector_contract = text "collector";
  distributor_contract = text "distributor";
  stable_denom = text "uusd";
  max_borrow_factor = 900_000_000_000_000_000;
}

abbrev pub sample_state : State
sample_state = record {
  total_liabilities = 100_000_000_000_000_000_000_000;
  total_reserves = 50_000_000_000_000_000_000_000;
  last_interest_updated = 0;
  last_reward_updated = 0;
  global_interest_index = 1_000_000_000_000_000_000;
  global_reward_index = 0;
  anc_emission_rate = 0;
  prev_aterra_supply = 400_000;
  prev_exchange_rate = 1_000_000_000_000_000_000;
}

abbrev pub sample_env : Env
sample_env = record { contract_address = text "market"; block_height = 7 }

abbrev pub accrued_state : State
accrued_state = record sample_state { last_interest_updated = 7; last_reward_updated = 7 }

abbrev pub Storage : Type 0
Storage = Config × State

abbrev pub sample_storage : Storage
sample_storage = (sample_config, sample_state)

abbrev pub sample_store : Store Storage
sample_store = record {
  read_config = λ s. ok s.0;
  read_state = λ s. ok s.1;
  store_config = λ c s. ok (c, s.1);
  store_state = λ st s. ok (s.0, st);
}

pub sample_store-IsStore : IsStore sample_store
sample_store-IsStore = record {
  read_config-store_config = λ c s s' e. ground arith;
  read_state-store_state = λ st s s' e. ground arith;
  read_config-store_state = λ st s s' e. ground arith;
}

abbrev pub sample_borrow : Borrow Storage
sample_borrow = record {
  compute_interest = λ d s c st height amount. ok (record st { last_interest_updated = height });
  compute_reward = λ st height. some (record st { last_reward_updated = height });
}
