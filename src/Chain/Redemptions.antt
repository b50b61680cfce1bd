-- ===== src/Chain/Redemptions.antt =====
-- A redemption through `execute` of src/contract.rs that the chain carries out.
use native.Mathlib.Nat.{div-mul-le_self, mul-le-mul_left}
use anchor_staking_relayer.Prelude.{
  ℕ, ◌+◌, ◌-◌, ◌*◌, ◌/◌, ◌≤◌, ◌<◌, ◌≡◌, ◌≢◌, ◌∙◌, Option, none, some, [], ◌∷◌, arith, subst, sym,
}
use anchor_staking_relayer.Bytes.{Text}
use anchor_staking_relayer.Outcome.{ok}
use anchor_staking_relayer.BigNumber.{BigNumber, IsExact, decimal_one, uint256_values}
use anchor_staking_relayer.Platform.{
  StdResult, Binary, CosmosMsg, bank_send, wasm_execute, Response, Env, MessageInfo, Cw20ReceiveMsg,
}
use anchor_staking_relayer.Deps.{QueryRequest, Deps}
use anchor_staking_relayer.Market.{receive}
use anchor_staking_relayer.MarketState.{Config, State, Store, IsStore, Borrow}
use anchor_staking_relayer.Querier.Tax.{reserved_tax, chain_tax, deduct_tax_pays}
use anchor_staking_relayer.Deposit.Rate.{
  assert_redeem_amount, compute_exchange_rate, compute_exchange_rate_raw,
}
use anchor_staking_relayer.Deposit.Rate.Laws.{
  InRange, worth, rate-worth, rate-mul-le, rate_after_redeem, rate_mono,
}
use anchor_staking_relayer.Deposit.{accrued}
use anchor_staking_relayer.Deposit.Redeemed.{Redeemed, redeem_stable_inv}
use anchor_staking_relayer.Contract.{Handlers, execute}
use anchor_staking_relayer.Contract.Hook.{receive_cw20_inv}
use anchor_staking_relayer.Chain.Effects.{RedemptionEffects}
use anchor_staking_relayer.Chain.{deliver_all, deliver_two, IsNarrowing, deps_at, IsPlatform}

module _ {S : Type 0} (n : BigNumber) (exact : IsExact n) (narrowing : IsNarrowing n) (d : Deps)
    (chain : ℕ → ℕ → QueryRequest → StdResult Binary) (deliver : CosmosMsg → ℕ × ℕ → Option (ℕ × ℕ))
    (store : Store S) (is_store : IsStore store) (borrow : Borrow S) (config : Config)
    (contract aterra : Text) (tax limit : ℕ)
    (platform : IsPlatform d chain deliver config contract aterra tax limit) (supply held : ℕ)
    (s : S) (configured : store.read_config s ≡ ok config) (env : Env)
    (here : env.contract_address ≡ contract) (sender : Text) (other : sender ≢ contract)
    (burned : ℕ) (resp : Response) (s' : S) (supply' held' : ℕ) where
  abbrev deps : Deps
  deps = deps_at d chain supply held

  abbrev Effects : State → Type 0
  Effects state =
      RedemptionEffects n store config state supply held supply' held' s' tax limit burned

  module _ (carried : deliver_all deliver resp.messages (supply, held) ≡ some (supply', held'))
      (went : Redeemed n deps store borrow env config s sender burned resp s') where
    rate_inv : compute_exchange_rate_raw n went.state supply held ≡ ok went.rate
    unfolding compute_exchange_rate
    rate_inv = ground (
      arith,
      went.rated,
      platform.aterra_known,
      platform.contract_known,
      platform.supplied supply held,
      platform.holds supply held,
      exact.sub_exact held 0 (omega arith),
    )

    -- The first message burns, and the second pays.
    abbrev Burnt : ℕ × ℕ → Type 0
    Burnt c =
        (c.0 + burned ≡ supply)
        × (c.1 ≡ held)
        × (deliver (bank_send sender (went.coin ∷ [])) c ≡ some (supply', held'))

    burnt : (c : ℕ × ℕ) × Burnt c
    burnt =
        let at_aterra : went.contract_addr ≡ aterra =
          ground (arith, went.known, platform.aterra_known) in
        let (c, burning, paying) =
          deliver_two deliver (wasm_execute aterra [] went.msg) (bank_send sender (went.coin ∷ []))
            (supply, held) (supply', held') (ground (arith, carried, went.messages, at_aterra)) in
        let (less, same) =
          platform.burns went.msg burned supply held c
            (platform.trips.from-to _ went.msg went.encoded) burning in
        (c, (less, same, paying))

    module _ (before : InRange went.state supply held) where
      fits : burned * went.rate + went.state.total_reserves < uint256_values
      fits =
          let (c, (burning, same, paying)) = burnt in
          let most : went.rate * supply ≤ worth went.state held =
            rate-mul-le n exact went.state supply held went.rate before rate_inv in
          let less : went.rate * burned ≤ went.rate * supply =
            mul-le-mul_left went.rate
              (let part : burned ≤ supply = omega (arith, burning) in part) in
          omega (arith, most, less, before.at_hand, before.worth_fits)

      redeemed_eq : went.redeem_amount ≡ burned * went.rate / decimal_one
      redeemed_eq =
          ground (arith, went.redeemed, exact.mul_exact burned went.rate (omega (arith, fits)))

      redeemed_most : went.redeem_amount * decimal_one ≤ burned * went.rate
      redeemed_most = rw redeemed_eq (div-mul-le_self (burned * went.rate) decimal_one)

      -- The check of the redemption has passed.
      covered : went.redeem_amount * decimal_one + went.state.total_reserves ≤ held * decimal_one
      unfolding assert_redeem_amount
      covered = ground (
        arith,
        went.covered,
        went.held,
        here,
        platform.holds supply held,
        exact.from_uint256_exact held (omega (arith, before.worth_fits)),
        exact.from_uint256_exact went.redeem_amount (omega (arith, redeemed_most, fits)),
        exact.decimal_add_exact (went.redeem_amount * decimal_one) went.state.total_reserves
            (omega (arith, redeemed_most, fits)),
      )

      charged :
          (went.coin.denom ≡ config.stable_denom)
          × (went.coin.amount + reserved_tax tax limit went.redeem_amount ≡ went.redeem_amount)
          × (went.coin.amount + chain_tax tax limit went.coin.amount ≤ went.redeem_amount)
      charged =
          let (same, small) = narrowing.kept went.redeem_amount went.amount went.narrowed in
          let (out, deducted, denom, reserved, cost) =
            deduct_tax_pays n exact deps
              (record { denom = config.stable_denom; amount = went.amount }) tax limit
              platform.taxed platform.capped small platform.tax_fits in
          let e : went.coin ≡ out = ground (arith, deducted, went.taxed) in
          rw (e, ← same) (denom, reserved, cost)

      delivered :
          (supply' + burned ≡ supply)
          × (held' + (went.coin.amount + chain_tax tax limit went.coin.amount) ≡ held)
      delivered =
          let (c, (less, same, paying)) = burnt in
          let (kept, left) =
            platform.pays sender went.coin c.0 c.1 (supply', held') other charged.0 paying in
          (omega (arith, less, kept), omega (arith, left, same))

      rate_kept : InRange went.state supply' held' → went.rate ≤ worth went.state held' / supply'
      rate_kept later =
          let (spent, left) = delivered in
          let (denom, reserved, cost) = charged in
          let e : supply' ≡ supply - burned = omega (arith, spent) in
          let held1 = held - went.redeem_amount in
          let mid : InRange went.state supply' held1 = record {
            minted = later.minted;
            at_hand = omega (arith, covered);
            worth_fits = omega (arith, before.worth_fits);
            supply_fits = later.supply_fits;
          } in
          let rate1 = worth went.state held1 / supply' in
          let rated1 = rate-worth n exact went.state supply' held1 mid in
          let first : went.rate ≤ rate1 =
            rate_after_redeem n exact went.state supply held went.rate before rate_inv burned
              went.redeem_amount rate1 (omega (arith, spent, later.minted)) (omega (arith, covered))
              (omega (arith, fits)) went.redeemed (rw (← e) mid) (rw (← e) rated1) in
          let then : rate1 ≤ worth went.state held' / supply' =
            rate_mono n exact went.state went.state supply' held1 held' rate1
              (worth went.state held' / supply') (omega (arith, left, cost)) mid rated1 later
              (rate-worth n exact went.state supply' held' later) in
          omega (arith, first, then)

      went_through : InRange went.state supply' held' → Effects went.state
      went_through later =
          let (spent, left) = delivered in
          let (denom, reserved, cost) = charged in
          let stored : State = record went.state { prev_aterra_supply = went.supply } in
          record {
            rate = went.rate;
            rate' = worth stored held' / supply';
            recorded = went.supply;
            paid = went.coin;
            rated = rate_inv;
            burnt = spent;
            denom = denom;
            amount = rw (← redeemed_eq) reserved;
            paid_out = left;
            charged = rw (← redeemed_eq) cost;
            solvent = rw (← redeemed_eq) covered;
            taken = went.recorded;
            stored = is_store.read_state-store_state stored s s' went.stored;
            configured = is_store.read_config-store_state stored s s' went.stored ∙ configured;
            rated_after = rate-worth n exact stored supply' held' (record {
              minted = later.minted;
              at_hand = later.at_hand;
              worth_fits = later.worth_fits;
              supply_fits = later.supply_fits;
            });
            not_diluted = rate_kept later;
          }

module _ {S : Type 0} (n : BigNumber) (exact : IsExact n) (narrowing : IsNarrowing n) (d : Deps)
    (chain : ℕ → ℕ → QueryRequest → StdResult Binary) (deliver : CosmosMsg → ℕ × ℕ → Option (ℕ × ℕ))
    (store : Store S) (is_store : IsStore store) (borrow : Borrow S) (h : Handlers S)
    (config : Config) (contract aterra : Text) (tax limit : ℕ)
    (platform : IsPlatform d chain deliver config contract aterra tax limit) (supply held : ℕ)
    (s : S) (configured : store.read_config s ≡ ok config) (env : Env)
    (here : env.contract_address ≡ contract) (info : MessageInfo) (msg : Cw20ReceiveMsg)
    (sender : Text) (valid : d.api.addr_validate msg.sender ≡ ok sender) (other : sender ≢ contract)
    (state : State)
    (acc : accrued n (deps_at d chain supply held) store borrow env config none s ≡ (ok state, s))
    (resp : Response) (s' : S) (supply' held' : ℕ) where
  -- Let the arithmetic be exact where results fit, a conversion to 128 bits panic or keep the number,
  -- the store read back what it stores, and the platform report, mint, burn and pay as it should. Let
  -- `execute` succeed on the hook for a redemption and the platform carry out its messages, with
  -- the state accrued and its worth in range before and after, and the aTerra sent in by someone
  -- else than the contract. Then the supply of aTerra has fallen by the amount that was sent in. The
  -- payment is in the stable coin, and is the worth of that amount at the exchange rate, rounded
  -- down, less the reserved tax. The balance has fallen by the payment and the tax of the chain on
  -- it, together at most that worth, and the balance before covered that worth and the reserves. The
  -- contract has stored the accrued state with the amount taken off the supply on record, its config
  -- is as it was, and the exchange rate after the call is at least the one before it.
  pub redemption_settles :
      InRange state supply held
      → InRange state supply' held'
      → execute n (deps_at d chain supply held) store borrow h env info (receive msg) tt s
        ≡ (ok resp, s')
      → deliver_all deliver resp.messages (supply, held) ≡ some (supply', held')
      → RedemptionEffects n store config state supply held supply' held' s' tax limit msg.amount
  unfolding execute
  redemption_settles before later ran carried =
      let deps = deps_at d chain supply held in
      let (sender', valid', accepted) =
        receive_cw20_inv n deps store borrow env info msg config s configured resp s' ran in
      let went =
        redeem_stable_inv n deps store borrow env config s configured sender' msg.amount resp s'
          accepted in
      let someone : sender' ≢ contract = λ e. other (ground (arith, valid, valid', e)) in
      let e : went.state ≡ state = ground (arith, went.accrual, acc) in
      subst
        (λ (st : State).
          RedemptionEffects n store config st supply held supply' held' s' tax limit msg.amount)
        e
        (went_through n exact narrowing d chain deliver store is_store borrow config contract aterra
          tax limit platform supply held s configured env here sender' someone msg.amount resp s'
          supply' held' carried went (subst (λ (st : State). InRange st supply held) (sym e) before)
          (subst (λ (st : State). InRange st supply' held') (sym e) later))
