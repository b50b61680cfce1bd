-- ===== src/Deposit/RedeemLaws.antt =====
-- `redeem_stable` and the reserves, and what a redemption burns and pays.
use anchor_staking_relayer.Prelude.{
  ℕ, ◌+◌, ◌-◌, ◌*◌, ◌/◌, ◌≤◌, ◌<◌, ◌≡◌, refl, none, [], ◌∷◌, arith,
}
use anchor_staking_relayer.Bytes.{Text}
use anchor_staking_relayer.Outcome.{ok, err}
use anchor_staking_relayer.BigNumber.{
  BigNumber, IsExact, decimal_one, uint128_values, uint256_values,
}
use anchor_staking_relayer.Platform.{Binary, Coin, Response, Env, burn, wasm_execute, bank_send}
use anchor_staking_relayer.Deps.{Deps}
use anchor_staking_relayer.MarketState.{Config, State, Store, IsStore, Borrow, no_stable_available}
use anchor_staking_relayer.Querier.{query_balance}
use anchor_staking_relayer.Querier.Tax.{reserved_tax, chain_tax, deduct_tax_pays}
use anchor_staking_relayer.Deposit.Rate.{compute_exchange_rate, assert_redeem_amount}
use anchor_staking_relayer.Deposit.{
  accrued, redeem_response, redeem_messages, redeem_accrued, redeem_stable,
}

module _ {S : Type 0} (n : BigNumber) (exact : IsExact n) (d : Deps) (store : Store S)
    (borrow : Borrow S) (env : Env) (sender : Text) (burned : ℕ) (config : Config) (state : State)
    (rate held : ℕ) (s : S) (configured : store.read_config s ≡ ok config)
    (acc : accrued n d store borrow env config none s ≡ (ok state, s))
    (rated : compute_exchange_rate n d config state none ≡ ok rate)
    (balance_known : query_balance d env.contract_address config.stable_denom ≡ ok held)
    (fits : burned * rate < uint256_values) (held_fits : held * decimal_one < uint256_values)
    (needed_fits : burned * rate + state.total_reserves < uint256_values) where
  -- The worth of the burned aTerra in the stable coin, rounded down.
  abbrev redeemed : ℕ
  redeemed = burned * rate / decimal_one

  -- If the payment and the reserves exceed what the contract holds, the redemption is refused and
  -- nothing is written.
  pub redeem_stable_refused :
      held * decimal_one < redeemed * decimal_one + state.total_reserves
      → redeem_stable n d store borrow env sender burned s
        ≡ (err (no_stable_available config.stable_denom), s)
  unfolding redeem_stable redeem_accrued redeem_messages assert_redeem_amount
  redeem_stable_refused short = ground (
    arith,
    configured,
    exact.mul_exact burned rate fits,
    exact.from_uint256_exact held held_fits,
    exact.from_uint256_exact redeemed (omega arith),
    exact.decimal_add_exact (redeemed * decimal_one) state.total_reserves (omega arith),
  )

  -- Whenever a redemption succeeds the reserves stay: what the contract holds covers them together
  -- with the payment.
  pub redeem_stable_solvent :
      {resp : Response}
      → (redeem_stable n d store borrow env sender burned s).0 ≡ ok resp
      → redeemed * decimal_one + state.total_reserves ≤ held * decimal_one
  redeem_stable_solvent done = ground (arith, redeem_stable_refused)

  -- A redemption that the contract can cover succeeds, once the burned amount is on record, the
  -- payment is a `Uint128`, the tax is known, and the platform stores, converts and encodes. It
  -- returns two messages: the burn of the aTerra that was sent in, and the payment to the sender.
  -- The payment is short of the redeemed amount by the reserved tax, and with the tax that the chain
  -- takes on it costs no more than that amount. The supply on record falls by the burned amount.
  pub redeem_stable_pays :
      (is_store : IsStore store) (tax limit : ℕ) (s' : S) (contract_addr : Text) (msg : Binary)
      → redeemed * decimal_one + state.total_reserves ≤ held * decimal_one
      → burned ≤ state.prev_aterra_supply
      → redeemed < uint128_values
      → tax < uint128_values
      → d.tax_rate ≡ ok tax
      → d.tax_cap config.stable_denom ≡ ok limit
      → store.store_state
          (record state { prev_aterra_supply = state.prev_aterra_supply - burned })
          s
        ≡ ok s'
      → d.api.addr_humanize config.aterra_contract ≡ ok contract_addr
      → d.cw20_execute_msg.to_binary (burn burned) ≡ ok msg
      → (resp : Response) × (paid : Coin) × (redeem_stable n d store borrow env sender burned s
          ≡ (ok resp, s'))
        × (resp.messages ≡ wasm_execute contract_addr [] msg ∷ bank_send sender (paid ∷ []) ∷ [])
        × (paid.denom ≡ config.stable_denom)
        × (paid.amount + reserved_tax tax limit redeemed ≡ redeemed)
        × (paid.amount + chain_tax tax limit paid.amount ≤ redeemed)
        × (store.read_state s'
            ≡ ok (record state { prev_aterra_supply = state.prev_aterra_supply - burned }))
  unfolding redeem_stable redeem_accrued redeem_messages assert_redeem_amount
  redeem_stable_pays is_store tax limit s' contract_addr msg covered known small tax_fits taxed
        capped stored human encoded =
      let (coin, deducted, denom, reserved, charged) =
        deduct_tax_pays n exact d (record { denom = config.stable_denom; amount = redeemed }) tax
          limit taxed capped small tax_fits in
      (
        redeem_response contract_addr msg sender coin burned redeemed,
        coin,
        ground (
          arith,
          configured,
          exact.mul_exact burned rate fits,
          exact.from_uint256_exact held held_fits,
          exact.from_uint256_exact redeemed (omega arith),
          exact.decimal_add_exact (redeemed * decimal_one) state.total_reserves (omega arith),
          exact.sub_exact state.prev_aterra_supply burned known,
          exact.into_uint128_exact redeemed small,
          deducted,
        ),
        refl,
        denom,
        reserved,
        charged,
        is_store.read_state-store_state _ s s' stored,
      )
