-- ===== src/Chain/Effects.antt =====
-- What a deposit and a redemption of src/deposit.rs change on the chain, once it has carried out the
-- messages of the response.
use anchor_staking_relayer.Prelude.{ℕ, ◌+◌, ◌*◌, ◌/◌, ◌≤◌, ◌<◌, ◌≡◌, some}
use anchor_staking_relayer.Outcome.{ok}
use anchor_staking_relayer.BigNumber.{BigNumber, decimal_one}
use anchor_staking_relayer.Platform.{Coin}
use anchor_staking_relayer.MarketState.{Config, State, Store}
use anchor_staking_relayer.Querier.Tax.{reserved_tax, chain_tax}
use anchor_staking_relayer.Deposit.Rate.{compute_exchange_rate_raw}

-- The state has accrued; the supply of aTerra, the balance of the contract and its storage are
-- first those before the call and then those after it.
module _ {S : Type 0} (n : BigNumber) (store : Store S) (config : Config) (state : State)
    (supply held supply' held' : ℕ) (s' : S) where
  pub record DepositEffects (coins : ℕ) : Type 0 where
    pub rate : ℕ
    pub rate' : ℕ
    pub recorded : ℕ
    pub rated : compute_exchange_rate_raw n state supply held ≡ ok rate
    pub some_deposited : 0 < coins
    pub minted : supply' ≡ supply + coins * decimal_one / rate
    pub received : held' ≡ held + coins
    pub added : n.add state.prev_aterra_supply (coins * decimal_one / rate) ≡ some recorded
    pub stored : store.read_state s' ≡ ok (record state { prev_aterra_supply = recorded })
    pub configured : store.read_config s' ≡ ok config
    pub rated_after :
        compute_exchange_rate_raw n (record state { prev_aterra_supply = recorded }) supply' held'
        ≡ ok rate'
    pub not_diluted : rate ≤ rate'

  pub record RedemptionEffects (tax limit burned : ℕ) : Type 0 where
    pub rate : ℕ
    pub rate' : ℕ
    pub recorded : ℕ
    pub paid : Coin
    pub rated : compute_exchange_rate_raw n state supply held ≡ ok rate
    pub burnt : supply' + burned ≡ supply
    pub denom : paid.denom ≡ config.stable_denom
    pub amount :
        paid.amount + reserved_tax tax limit (burned * rate / decimal_one)
        ≡ burned * rate / decimal_one
    pub paid_out : held' + (paid.amount + chain_tax tax limit paid.amount) ≡ held
    pub charged : paid.amount + chain_tax tax limit paid.amount ≤ burned * rate / decimal_one
    pub solvent :
        burned * rate / decimal_one * decimal_one + state.total_reserves ≤ held * decimal_one
    pub taken : n.sub state.prev_aterra_supply burned ≡ some recorded
    pub stored : store.read_state s' ≡ ok (record state { prev_aterra_supply = recorded })
    pub configured : store.read_config s' ≡ ok config
    pub rated_after :
        compute_exchange_rate_raw n (record state { prev_aterra_supply = recorded }) supply' held'
        ≡ ok rate'
    pub not_diluted : rate ≤ rate'
