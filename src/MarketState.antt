-- ===== src/MarketState.antt =====
-- The state of the money market contract, with the fields that src/contract.rs gives it. The file
-- that declares its types and its storage, and the modules `borrow` and `error` that
-- src/deposit.rs imports, are not in the repository: what they hold is a parameter.
pub mod Sample
use anchor_staking_relayer.Prelude.{ℕ, ◌≡◌, Option}
use anchor_staking_relayer.Bytes.{Bytes, Text}
use anchor_staking_relayer.Outcome.{ok}
use anchor_staking_relayer.Platform.{StdError, StdResult}
use anchor_staking_relayer.Deps.{Deps}

pub record Config : Type 0 where
  pub contract_addr : Bytes
  pub owner_addr : Bytes
  pub aterra_contract : Bytes
  pub overseer_contract : Bytes
  pub interest_model : Bytes
  pub distribution_model : Bytes
  pub collector_contract : Bytes
  pub distributor_contract : Bytes
  pub stable_denom : Text
  pub max_borrow_factor : ℕ

pub record State : Type 0 where
  pub total_liabilities : ℕ
  pub total_reserves : ℕ
  pub last_interest_updated : ℕ
  pub last_reward_updated : ℕ
  pub global_interest_index : ℕ
  pub global_reward_index : ℕ
  pub anc_emission_rate : ℕ
  pub prev_aterra_supply : ℕ
  pub prev_exchange_rate : ℕ

-- `ContractError`, in the variants that the code makes, and `From<StdError>`.
pub data ContractError : Type 0 where
  std : StdError → ContractError
  unauthorized : ContractError
  missing_redeem_stable_hook : ContractError
  zero_deposit : Text → ContractError
  no_stable_available : Text → ContractError

-- Storage of type `S` with the functions of the missing `state` module.
pub record Store (S : Type 0) : Type 0 where
  pub read_config : S → StdResult Config
  pub read_state : S → StdResult State
  pub store_config : Config → S → StdResult S
  pub store_state : State → S → StdResult S

-- What was stored is read back, and storing the state leaves the config.
pub record IsStore {S : Type 0} (store : Store S) : Type 0 where
  pub read_config-store_config :
      (c : Config) (s s' : S) → store.store_config c s ≡ ok s' → store.read_config s' ≡ ok c
  pub read_state-store_state :
      (st : State) (s s' : S) → store.store_state st s ≡ ok s' → store.read_state s' ≡ ok st
  pub read_config-store_state :
      (st : State) (s s' : S)
      → store.store_state st s ≡ ok s'
      → store.read_config s' ≡ store.read_config s

-- `compute_interest` and `compute_reward` of the missing `borrow` module: the new state that they
-- leave behind their `&mut`; the second returns nothing and can only panic.
pub record Borrow (S : Type 0) : Type 0 where
  pub compute_interest : Deps → S → Config → State → ℕ → Option ℕ → StdResult State
  pub compute_reward : State → ℕ → Option State
