-- ===== src/Deposit/Refinement.antt =====
-- The handlers and the steps of the vault: what the aTerra token executes after a deposit or a
-- redemption, and what the contract then holds.
use anchor_staking_relayer.Prelude.{
  ℕ, ◌+◌, ◌-◌, ◌*◌, ◌/◌, ◌≤◌, ◌<◌, ◌≡◌, none, some, [], ◌∷◌, arith, subst,
}
use anchor_staking_relayer.Bytes.{Text}
use anchor_staking_relayer.Outcome.{ok}
use anchor_staking_relayer.BigNumber.{
  BigNumber, IsExact, decimal_one, uint128_values, uint256_values,
}
use anchor_staking_relayer.Platform.{
  Binary, Coin, Response, Env, MessageInfo, RoundTrips, mint, burn, wasm_execute, bank_send,
}
use anchor_staking_relayer.Deps.{Deps}
use anchor_staking_relayer.MarketState.{Config, Store, IsStore, Borrow}
use anchor_staking_relayer.Querier.{query_balance, query_supply}
use anchor_staking_relayer.Querier.Tax.{reserved_tax, chain_tax}
use anchor_staking_relayer.Deposit.Rate.{compute_exchange_rate}
use anchor_staking_relayer.Deposit.Rate.Vault.{Vault, IsRated, Step, deposit, redeem, receive}
use anchor_staking_relayer.Deposit.{funds_in, accrued, deposit_stable, redeem_stable}
use anchor_staking_relayer.Deposit.DepositLaws.{deposit_stable_mints}
use anchor_staking_relayer.Deposit.RedeemLaws.{redeem_stable_pays}

module _ {S : Type 0} (n : BigNumber) (exact : IsExact n) (d : Deps) (store : Store S)
    (is_store : IsStore store) (borrow : Borrow S) (env : Env) (config : Config) (s s' : S)
    (aterra contract : Text) (msg : Binary) (v : Vault) (rated : IsRated n v)
    (trips : RoundTrips d.cw20_execute_msg) (configured : store.read_config s ≡ ok config)
    (aterra_known : d.api.addr_humanize config.aterra_contract ≡ ok aterra)
    (contract_known : d.api.addr_humanize config.contract_addr ≡ ok contract)
    (supplied : query_supply d aterra ≡ ok v.supply) where
  rate_at_deposit :
      (amount : ℕ)
      → query_balance d contract config.stable_denom ≡ ok (v.balance + amount)
      → compute_exchange_rate n d config v.state (some amount) ≡ ok v.rate
  unfolding compute_exchange_rate
  rate_at_deposit amount held =
      ground (arith, exact.sub_exact (v.balance + amount) amount (omega arith), rated.rated)

  rate_at_redemption :
      query_balance d contract config.stable_denom ≡ ok v.balance
      → compute_exchange_rate n d config v.state none ≡ ok v.rate
  unfolding compute_exchange_rate
  rate_at_redemption held = ground (arith, exact.sub_exact v.balance 0 (omega arith), rated.rated)

  abbrev deposited : MessageInfo → ℕ
  deposited info = funds_in config.stable_denom info.funds

  abbrev minted_for : MessageInfo → ℕ
  minted_for info = deposited info * decimal_one / v.rate

  abbrev redeemed_for : ℕ → ℕ
  redeemed_for burned = burned * v.rate / decimal_one

  -- `deposit_stable` implements the deposit step of the vault. The vault is rated, and has the
  -- accrued state, the supply that the aTerra token reports, and the balance that the chain reports
  -- less the amount that came with the call. A deposit of a positive 128-bit amount then succeeds,
  -- once the new amounts fit and the platform stores, converts and encodes: the token decodes its
  -- one message to a mint for the sender, and with that mint and the deposited amount the vault
  -- takes its step.
  pub deposit_stable-Step :
      (info : MessageInfo) (rate' : ℕ)
      → 0 < deposited info
      → deposited info < uint128_values
      → minted_for info < uint128_values
      → v.state.prev_aterra_supply + minted_for info < uint256_values
      → accrued n d store borrow env config (some (deposited info)) s ≡ (ok v.state, s)
      → query_balance d contract config.stable_denom ≡ ok (v.balance + deposited info)
      → store.store_state
          (record v.state { prev_aterra_supply = v.state.prev_aterra_supply + minted_for info })
          s
        ≡ ok s'
      → d.cw20_execute_msg.to_binary (mint info.sender (minted_for info)) ≡ ok msg
      → (resp : Response) × (deposit_stable n d store borrow env info s ≡ (ok resp, s'))
        × (resp.messages ≡ wasm_execute aterra [] msg ∷ [])
        × (d.cw20_execute_msg.from_binary msg ≡ ok (mint info.sender (minted_for info)))
        × Step n v (record v {
          supply = v.supply + minted_for info;
          balance = v.balance + deposited info;
          rate = rate';
        })
  deposit_stable-Step info rate' pos fits small room acc held stored encoded =
      let (resp, done, minting, same, recorded, no_gift) =
        deposit_stable_mints n d store borrow env info config s configured exact is_store v.state
          v.rate s' aterra msg pos fits rated.worth_something small room acc
          (rate_at_deposit (deposited info) held) stored aterra_known encoded in
      (
        resp,
        done,
        minting,
        trips.from-to _ msg encoded,
        deposit (deposited info) (minted_for info) rate'
            (exact.div_exact (deposited info) v.rate rated.worth_something (omega arith)),
      )

  -- What a payment takes off the balance: its amount and the tax of the chain on it.
  abbrev cost_of : ℕ → ℕ → Coin → ℕ
  cost_of tax limit paid = paid.amount + chain_tax tax limit paid.amount

  abbrev burnt : ℕ → ℕ → Vault
  burnt burned rate' = record v {
    supply = v.supply - burned;
    balance = v.balance - redeemed_for burned;
    rate = rate';
  }

  -- `redeem_stable` implements the redemption step of the vault, which is rated and has the accrued
  -- state and the supply and balance that the platform reports. A redemption of a part of the supply
  -- that the balance covers together with the reserves then succeeds, once the tax is known, the
  -- burned amount is on record, the amounts fit and the platform stores, converts and encodes. The
  -- token decodes the first message to the burn of the amount. The second pays the sender, in the
  -- stable coin, the redeemed amount less the reserved tax. The supply on record falls by the burned
  -- amount. With the burn and the redeemed amount the vault takes its step, and a payment in leads on
  -- from there to the balance less the payment and the tax of the chain on it.
  pub redeem_stable-Step :
      (sender : Text) (burned tax limit rate' rate'' : ℕ)
      → env.contract_address ≡ contract
      → accrued n d store borrow env config none s ≡ (ok v.state, s)
      → query_balance d contract config.stable_denom ≡ ok v.balance
      → burned * v.rate + v.state.total_reserves < uint256_values
      → redeemed_for burned * decimal_one + v.state.total_reserves ≤ v.balance * decimal_one
      → burned < v.supply
      → burned ≤ v.state.prev_aterra_supply
      → redeemed_for burned < uint128_values
      → tax < uint128_values
      → d.tax_rate ≡ ok tax
      → d.tax_cap config.stable_denom ≡ ok limit
      → store.store_state
          (record v.state { prev_aterra_supply = v.state.prev_aterra_supply - burned })
          s
        ≡ ok s'
      → d.cw20_execute_msg.to_binary (burn burned) ≡ ok msg
      → (resp : Response) × (paid : Coin) × (redeem_stable n d store borrow env sender burned s
          ≡ (ok resp, s'))
        × (resp.messages ≡ wasm_execute aterra [] msg ∷ bank_send sender (paid ∷ []) ∷ [])
        × (d.cw20_execute_msg.from_binary msg ≡ ok (burn burned))
        × (paid.denom ≡ config.stable_denom)
        × (paid.amount + reserved_tax tax limit (redeemed_for burned) ≡ redeemed_for burned)
        × (store.read_state s'
            ≡ ok (record v.state { prev_aterra_supply = v.state.prev_aterra_supply - burned }))
        × Step n v (burnt burned rate')
        × Step n (burnt burned rate') (record (burnt burned rate') {
          balance = v.balance - cost_of tax limit paid;
          rate = rate'';
        })
  redeem_stable-Step sender burned tax limit rate' rate'' here acc held needed covered part known
        small tax_fits taxed capped stored encoded =
      let (resp, paid, done, paying, denom, reserved, charged, recorded) =
        redeem_stable_pays n exact d store borrow env sender burned config v.state v.rate v.balance
          s configured acc (rate_at_redemption held) (rw here held) (omega arith)
          (omega (arith, rated.in_range.worth_fits)) needed is_store tax limit s' aterra msg covered
          known small tax_fits taxed capped stored aterra_known encoded in
      let left : v.balance - redeemed_for burned + (redeemed_for burned - cost_of tax limit paid)
          ≡ v.balance - cost_of tax limit paid =
        omega (arith, charged, covered) in
      (
        resp,
        paid,
        done,
        paying,
        trips.from-to _ msg encoded,
        denom,
        reserved,
        recorded,
        redeem burned (redeemed_for burned) rate' part (omega arith) (omega arith)
            (exact.mul_exact burned v.rate (omega arith)),
        subst
            (λ (b : ℕ).
              Step n (burnt burned rate')
                (record (burnt burned rate') { balance = b; rate = rate'' }))
            left (receive (redeemed_for burned - cost_of tax limit paid) rate''),
      )
