-- ===== src/Deposit/Frame.antt =====
-- What deposits and redemptions of src/deposit.rs leave as it was, whatever they end in.
use anchor_staking_relayer.Prelude.{ℕ, ◌≡◌, if◌then◌else◌, ◌==◌, Option, none, some, arith}
use anchor_staking_relayer.Bytes.{Text}
use anchor_staking_relayer.Outcome.{ok, err, or_panic}
use anchor_staking_relayer.BigNumber.{BigNumber}
use anchor_staking_relayer.Platform.{Env, MessageInfo}
use anchor_staking_relayer.Deps.{Deps}
use anchor_staking_relayer.MarketState.{Config, State, Store, Borrow, zero_deposit}
use anchor_staking_relayer.Querier.{query_balance}
use anchor_staking_relayer.Deposit.Rate.{compute_exchange_rate, assert_redeem_amount}
use anchor_staking_relayer.Deposit.{
  funds_in, accrued, deposit_message, deposit_accrued, deposit_stable, redeem_messages,
  redeem_accrued, redeem_stable,
}
use anchor_staking_relayer.Handler.{from_std, writes}
use anchor_staking_relayer.Handler.Keeps.{Keeps, Keeps-bind, Keeps-writes, step-Keeps}

module _ {S O : Type 0} (view : S → O) (n : BigNumber) (d : Deps) (store : Store S)
    (borrow : Borrow S)
    (stored : (st : State) (s s' : S) → store.store_state st s ≡ ok s' → view s' ≡ view s) where
  accrued-Keeps :
      (env : Env) (config : Config) (amount : Option ℕ)
      → Keeps view (accrued n d store borrow env config amount)
  unfolding accrued
  accrued-Keeps env config amount s = ground arith

  deposit_message-Keeps :
      (config : Config) (info : MessageInfo) (deposit_amount mint_amount : ℕ)
      → Keeps view (deposit_message n d store borrow config info deposit_amount mint_amount)
  unfolding deposit_message
  deposit_message-Keeps config info deposit_amount mint_amount s = ground arith

  redeem_messages-Keeps :
      (config : Config) (sender : Text) (burn_amount redeem_amount : ℕ)
      → Keeps view (redeem_messages n d store borrow config sender burn_amount redeem_amount)
  unfolding redeem_messages
  redeem_messages-Keeps config sender burn_amount redeem_amount s = ground arith

  deposit_accrued-Keeps :
      (config : Config) (info : MessageInfo) (amount : ℕ) (state : State)
      → Keeps view (deposit_accrued n d store borrow config info amount state)
  unfolding deposit_accrued
  deposit_accrued-Keeps config info amount state s =
      step-Keeps view s (from_std (compute_exchange_rate n d config state (some amount))) _ (λ rate.
        step-Keeps view s (from_std (or_panic (n.div_decimal amount rate))) _ (λ mint_amount.
          step-Keeps view s (from_std (or_panic (n.add state.prev_aterra_supply mint_amount))) _
            (λ supply.
              Keeps-bind view
                (writes (store.store_state (record state { prev_aterra_supply = supply })))
                (λ u. deposit_message n d store borrow config info amount mint_amount)
                (Keeps-writes view
                  (store.store_state (record state { prev_aterra_supply = supply }))
                  (stored (record state { prev_aterra_supply = supply })))
                (λ u. deposit_message-Keeps config info amount mint_amount) s)))

  redeem_accrued-Keeps :
      (env : Env) (config : Config) (sender : Text) (burn_amount : ℕ) (state : State)
      → Keeps view (redeem_accrued n d store borrow env config sender burn_amount state)
  unfolding redeem_accrued
  redeem_accrued-Keeps env config sender burn_amount state s =
      step-Keeps view s (from_std (compute_exchange_rate n d config state none)) _ (λ rate.
        step-Keeps view s (from_std (or_panic (n.mul_decimal burn_amount rate))) _ (λ redeem_amount.
          step-Keeps view s (from_std (query_balance d env.contract_address config.stable_denom)) _
            (λ balance.
              step-Keeps view s (assert_redeem_amount n config state balance redeem_amount) _ (λ u.
                step-Keeps view s (from_std (or_panic (n.sub state.prev_aterra_supply burn_amount)))
                  _
                  (λ supply.
                    Keeps-bind view
                      (writes (store.store_state (record state { prev_aterra_supply = supply })))
                      (λ u.
                        redeem_messages n d store borrow config sender burn_amount redeem_amount)
                      (Keeps-writes view
                        (store.store_state (record state { prev_aterra_supply = supply }))
                        (stored (record state { prev_aterra_supply = supply })))
                      (λ u. redeem_messages-Keeps config sender burn_amount redeem_amount) s)))))

  pub deposit_stable-Keeps :
      (env : Env) (info : MessageInfo) → Keeps view (deposit_stable n d store borrow env info)
  unfolding deposit_stable
  deposit_stable-Keeps env info s = step-Keeps view s (from_std (store.read_config s)) _ (λ config.
      step-Keeps view s
        (if funds_in config.stable_denom info.funds == 0
          then err (zero_deposit config.stable_denom)
          else ok tt)
        _
        (λ u.
          Keeps-bind view
            (accrued n d store borrow env config (some (funds_in config.stable_denom info.funds)))
            (deposit_accrued n d store borrow config info (funds_in config.stable_denom info.funds))
            (accrued-Keeps env config (some (funds_in config.stable_denom info.funds)))
            (deposit_accrued-Keeps config info (funds_in config.stable_denom info.funds)) s))

  pub redeem_stable-Keeps :
      (env : Env) (sender : Text) (burn_amount : ℕ)
      → Keeps view (redeem_stable n d store borrow env sender burn_amount)
  unfolding redeem_stable
  redeem_stable-Keeps env sender burn_amount s =
      step-Keeps view s (from_std (store.read_config s)) _ (λ config.
        Keeps-bind view (accrued n d store borrow env config none)
          (redeem_accrued n d store borrow env config sender burn_amount)
          (accrued-Keeps env config none) (redeem_accrued-Keeps env config sender burn_amount) s)
