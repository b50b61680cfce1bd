-- ===== src/Chain/Deposits.antt =====
-- A deposit through `execute` of src/contract.rs that the chain carries out.
use anchor_staking_relayer.Prelude.{
  ℕ, ◌+◌, ◌*◌, ◌/◌, ◌<◌, ◌≡◌, ap, ◌∙◌, Option, some, [], arith, subst, sym,
}
use anchor_staking_relayer.Bytes.{Text}
use anchor_staking_relayer.Outcome.{ok}
use anchor_staking_relayer.BigNumber.{BigNumber, IsExact, PanicsOnZero, decimal_one}
use anchor_staking_relayer.Platform.{
  StdResult, Binary, CosmosMsg, wasm_execute, Response, Env, MessageInfo,
}
use anchor_staking_relayer.Deps.{QueryRequest, Deps}
use anchor_staking_relayer.Market.{ExecuteMsg}
use anchor_staking_relayer.MarketState.{Config, State, Store, IsStore, Borrow}
use anchor_staking_relayer.Deposit.Rate.{compute_exchange_rate, compute_exchange_rate_raw}
use anchor_staking_relayer.Deposit.Rate.Laws.{InRange, worth, rate-worth, rate_after_deposit}
use anchor_staking_relayer.Deposit.{accrued, funds_in}
use anchor_staking_relayer.Deposit.Deposited.{Deposited, deposit_stable_inv}
use anchor_staking_relayer.Contract.{Handlers, execute}
use anchor_staking_relayer.Chain.Effects.{DepositEffects}
use anchor_staking_relayer.Chain.{deliver_all, deliver_one, IsNarrowing, deps_at, IsPlatform}

module _ {S : Type 0} (n : BigNumber) (exact : IsExact n) (by_zero : PanicsOnZero n)
    (narrowing : IsNarrowing n) (d : Deps) (chain : ℕ → ℕ → QueryRequest → StdResult Binary)
    (deliver : CosmosMsg → ℕ × ℕ → Option (ℕ × ℕ)) (store : Store S) (is_store : IsStore store)
    (borrow : Borrow S) (config : Config) (contract aterra : Text) (tax limit : ℕ)
    (platform : IsPlatform d chain deliver config contract aterra tax limit) (supply held : ℕ)
    (s : S) (configured : store.read_config s ≡ ok config) (env : Env) (info : MessageInfo)
    (resp : Response) (s' : S) (supply' held' : ℕ) where
  abbrev coins : ℕ
  coins = funds_in config.stable_denom info.funds

  -- The platform when the call runs: the coins that came with it are in the balance.
  abbrev deps : Deps
  deps = deps_at d chain supply (held + coins)

  module _
      (carried : deliver_all deliver resp.messages (supply, held + coins) ≡ some (supply', held'))
      (went : Deposited n deps store borrow env config s info resp s') where
    rate_inv : compute_exchange_rate_raw n went.state supply held ≡ ok went.rate
    unfolding compute_exchange_rate
    rate_inv = ground (
      arith,
      went.rated,
      platform.aterra_known,
      platform.contract_known,
      platform.supplied supply (held + coins),
      platform.holds supply (held + coins),
      exact.sub_exact (held + coins) coins (omega arith),
    )

    delivered : (supply' ≡ supply + went.mint_amount) × (held' ≡ held + coins)
    delivered =
        let at_aterra : went.contract_addr ≡ aterra =
          ground (arith, went.known, platform.aterra_known) in
        let minting : deliver (wasm_execute aterra [] went.msg) (supply, held + coins)
            ≡ some (supply', held') =
          deliver_one deliver (wasm_execute aterra [] went.msg) (supply, held + coins)
            (supply', held') (ground (arith, carried, went.messages, at_aterra)) in
        let (more, same) =
          platform.mints went.msg info.sender went.amount supply (held + coins) (supply', held')
            (platform.trips.from-to _ went.msg went.encoded) minting in
        let (kept, small) = narrowing.kept went.mint_amount went.amount went.narrowed in
        (more ∙ ap (λ (a : ℕ). supply + a) kept, same)

    -- A rate of zero does not divide.
    rate_positive : 0 < went.rate
    rate_positive = ground (arith, went.minted, by_zero coins)

  abbrev Effects : State → Type 0
  Effects state = DepositEffects n store config state supply held supply' held' s' coins

  module _
      (carried : deliver_all deliver resp.messages (supply, held + coins) ≡ some (supply', held'))
      (went : Deposited n deps store borrow env config s info resp s')
      (before : InRange went.state supply held) (later : InRange went.state supply' held') where
    went_through : Effects went.state
    went_through =
        let rated = rate_inv carried went in
        let (more, same) = delivered carried went in
        let positive = rate_positive carried went in
        let minted : went.mint_amount ≡ coins * decimal_one / went.rate = ground (
          arith,
          went.minted,
          exact.div_exact coins went.rate positive (omega (arith, later.worth_fits, same)),
        ) in
        let stored : State = record went.state { prev_aterra_supply = went.supply } in
        let later' : InRange stored supply' held' = record {
          minted = later.minted;
          at_hand = later.at_hand;
          worth_fits = later.worth_fits;
          supply_fits = later.supply_fits;
        } in
        let rated' = rate-worth n exact stored supply' held' later' in
        record {
          rate = went.rate;
          rate' = worth stored held' / supply';
          recorded = went.supply;
          rated = rated;
          some_deposited = ground (arith, went.some_deposited);
          minted = rw (← minted) more;
          received = same;
          added = rw (← minted) went.recorded;
          stored = is_store.read_state-store_state stored s s' went.stored;
          configured = is_store.read_config-store_state stored s s' went.stored ∙ configured;
          rated_after = rated';
          not_diluted =
              rate_after_deposit n exact went.state supply held went.rate before rated coins
                went.mint_amount (worth went.state held' / supply') positive went.minted
                (rw (← more, ← same) later)
                (rw (← more, ← same) (rate-worth n exact went.state supply' held' later));
        }

  module _ (h : Handlers S) (state : State)
      (acc : accrued n deps store borrow env config (some coins) s ≡ (ok state, s)) where
    -- Let the arithmetic be exact where results fit, a division by zero panic, a conversion to 128 bits
    -- panic or keep the number, the store read back what it stores, and the platform report, mint, burn
    -- and pay as it should. Let `execute` succeed on `DepositStable` and the platform carry out its
    -- messages, with the state accrued and its worth in range before and after. Then coins came with the call. The supply of
    -- aTerra has grown by these coins over the exchange rate, which the code computes from the
    -- balance without them, rounded down, and the balance by the coins. The contract has stored the
    -- accrued state with the minted amount added to the supply on record, its config is as it was,
    -- and the exchange rate after the call is at least the one before it.
    pub deposit_settles :
        InRange state supply held
        → InRange state supply' held'
        → execute n deps store borrow h env info ExecuteMsg.deposit_stable tt s ≡ (ok resp, s')
        → deliver_all deliver resp.messages (supply, held + coins) ≡ some (supply', held')
        → DepositEffects n store config state supply held supply' held' s' coins
    unfolding execute
    deposit_settles before later ran carried =
        let went =
          deposit_stable_inv n deps store borrow env config s configured info resp s' ran in
        let e : went.state ≡ state = ground (arith, went.accrual, acc) in
        subst Effects e (
          went_through carried went (subst (λ (st : State). InRange st supply held) (sym e) before)
            (subst (λ (st : State). InRange st supply' held') (sym e) later))
