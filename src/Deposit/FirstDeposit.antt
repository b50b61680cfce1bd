-- ===== src/Deposit/FirstDeposit.antt =====
-- `deposit_stable` on a market that owns nothing while aTerra is in circulation, as `init` of
-- src/contract.rs leaves it.
use native.Mathlib.Nat.{zero-div}
use anchor_staking_relayer.Prelude.{ℕ, ◌*◌, ◌<◌, ◌≡◌, ap, ◌∙◌, some, arith}
use anchor_staking_relayer.Bytes.{Text}
use anchor_staking_relayer.Outcome.{ok, panic}
use anchor_staking_relayer.BigNumber.{BigNumber, IsExact, PanicsOnZero, decimal_one, uint256_values}
use anchor_staking_relayer.Platform.{Env, MessageInfo}
use anchor_staking_relayer.Deps.{Deps}
use anchor_staking_relayer.MarketState.{Config, State, Store, Borrow}
use anchor_staking_relayer.Querier.{query_balance, query_supply}
use anchor_staking_relayer.Deposit.Rate.{compute_exchange_rate, compute_exchange_rate_raw}
use anchor_staking_relayer.Deposit.Rate.Laws.{worth, rate-worth}
use anchor_staking_relayer.Deposit.{funds_in, accrued, deposit_accrued, deposit_stable}

module _ {S : Type 0} (n : BigNumber) (exact : IsExact n) (by_zero : PanicsOnZero n) (d : Deps)
    (store : Store S) (borrow : Borrow S) (env : Env) (info : MessageInfo) (config : Config)
    (state : State) (s : S) (aterra contract : Text) (supply : ℕ) where
  -- A market without liabilities and reserves that holds nothing of the stable coin but what comes
  -- with the call, while a positive supply of aTerra is in circulation, takes no deposit: the
  -- exchange rate is zero, and the division of the amount by it panics. Nothing is written.
  pub deposit_stable_without_worth :
      store.read_config s ≡ ok config
      → 0 < funds_in config.stable_denom info.funds
      → accrued n d store borrow env config (some (funds_in config.stable_denom info.funds)) s
        ≡ (ok state, s)
      → state.total_liabilities ≡ 0
      → state.total_reserves ≡ 0
      → d.api.addr_humanize config.aterra_contract ≡ ok aterra
      → d.api.addr_humanize config.contract_addr ≡ ok contract
      → query_supply d aterra ≡ ok supply
      → query_balance d contract config.stable_denom ≡ ok (funds_in config.stable_denom info.funds)
      → 0 < supply
      → supply * decimal_one < uint256_values
      → deposit_stable n d store borrow env info s ≡ (panic, s)
  unfolding deposit_stable deposit_accrued compute_exchange_rate
  deposit_stable_without_worth configured pos acc no_debt no_reserves aterra_known contract_known
        supplied held circulating fits =
      let worthless : compute_exchange_rate_raw n state supply 0 ≡ ok 0 =
        rate-worth n exact state supply 0 (omega arith)
        ∙ ap ok (rw (let e : worth state 0 ≡ 0 = omega arith in e) (zero-div supply)) in
      ground (
        arith,
        configured,
        acc,
        aterra_known,
        contract_known,
        supplied,
        held,
        exact.sub_exact (funds_in config.stable_denom info.funds)
            (funds_in config.stable_denom info.funds) (omega arith),
        worthless,
        by_zero (funds_in config.stable_denom info.funds),
      )
