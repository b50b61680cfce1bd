-- ===== src/Deposit/DepositLaws.antt =====
-- `deposit_stable`: what is refused, and what a deposit mints.
use native.Mathlib.Nat.{div-mul-le_self}
use anchor_staking_relayer.Prelude.{ℕ, ◌+◌, ◌*◌, ◌/◌, ◌≤◌, ◌<◌, ◌≡◌, refl, some, [], ◌∷◌, arith}
use anchor_staking_relayer.Bytes.{Text}
use anchor_staking_relayer.Outcome.{ok, err}
use anchor_staking_relayer.BigNumber.{
  BigNumber, IsExact, decimal_one, uint128_values, uint256_values,
}
use anchor_staking_relayer.Platform.{Binary, Response, Env, MessageInfo, mint, wasm_execute}
use anchor_staking_relayer.Deps.{Deps}
use anchor_staking_relayer.MarketState.{Config, State, Store, IsStore, Borrow, zero_deposit}
use anchor_staking_relayer.Deposit.Rate.{compute_exchange_rate}
use anchor_staking_relayer.Deposit.{
  deposit_response, funds_in, accrued, deposit_message, deposit_accrued, deposit_stable,
}

module _ {S : Type 0} (n : BigNumber) (d : Deps) (store : Store S) (borrow : Borrow S) (env : Env)
    (info : MessageInfo) (config : Config) (s : S)
    (configured : store.read_config s ≡ ok config) where
  -- A call with none of the stable coin is refused, before anything is read or written.
  pub deposit_stable_refused :
      funds_in config.stable_denom info.funds ≡ 0
      → deposit_stable n d store borrow env info s ≡ (err (zero_deposit config.stable_denom), s)
  unfolding deposit_stable
  deposit_stable_refused h = ground arith

  module _ (exact : IsExact n) (is_store : IsStore store) (state : State) (rate : ℕ) (s' : S)
      (contract_addr : Text) (msg : Binary) where
    -- The amount of the stable coin that was sent, and the aTerra for it at the exchange rate.
    abbrev deposited : ℕ
    deposited = funds_in config.stable_denom info.funds

    abbrev minted : ℕ
    minted = deposited * decimal_one / rate

    -- A deposit of an amount that is a `Uint128` succeeds, once the state is accrued, the rate is
    -- known and positive, the new amounts fit, and the platform stores, converts and encodes. It
    -- returns the one message that mints, for the sender, the deposited amount over the rate,
    -- rounded down; the supply on record grows by as much, and nothing else of the stored state and
    -- nothing of the config changes; and the minted aTerra is worth no more than the deposit.
    pub deposit_stable_mints :
        0 < deposited
        → deposited < uint128_values
        → 0 < rate
        → minted < uint128_values
        → state.prev_aterra_supply + minted < uint256_values
        → accrued n d store borrow env config (some deposited) s ≡ (ok state, s)
        → compute_exchange_rate n d config state (some deposited) ≡ ok rate
        → store.store_state
            (record state { prev_aterra_supply = state.prev_aterra_supply + minted })
            s
          ≡ ok s'
        → d.api.addr_humanize config.aterra_contract ≡ ok contract_addr
        → d.cw20_execute_msg.to_binary (mint info.sender minted) ≡ ok msg
        → (resp : Response) × (deposit_stable n d store borrow env info s ≡ (ok resp, s'))
          × (resp.messages ≡ wasm_execute contract_addr [] msg ∷ [])
          × (store.read_config s' ≡ ok config)
          × (store.read_state s'
              ≡ ok (record state { prev_aterra_supply = state.prev_aterra_supply + minted }))
          × (minted * rate ≤ deposited * decimal_one)
    unfolding deposit_stable deposit_accrued deposit_message
    deposit_stable_mints pos fits rate_pos small room acc rated stored human encoded = (
      deposit_response contract_addr msg info.sender minted deposited,
      ground (
        arith,
        configured,
        exact.div_exact deposited rate rate_pos (omega arith),
        exact.add_exact state.prev_aterra_supply minted room,
        exact.into_uint128_exact minted small,
      ),
      refl,
      ground (arith, configured, is_store.read_config-store_state _ s s' stored),
      is_store.read_state-store_state _ s s' stored,
      div-mul-le_self (deposited * decimal_one) rate,
    )
