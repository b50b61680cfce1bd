-- ===== src/Deposit/Redeemed.antt =====
-- What a redemption of src/deposit.rs that succeeded has gone through.
use anchor_staking_relayer.Prelude.{ℕ, ◌≡◌, none, some, [], ◌∷◌, arith}
use anchor_staking_relayer.Bytes.{Text}
use anchor_staking_relayer.Outcome.{ok}
use anchor_staking_relayer.BigNumber.{BigNumber}
use anchor_staking_relayer.Platform.{Binary, Coin, Response, Env, burn, wasm_execute, bank_send}
use anchor_staking_relayer.Deps.{Deps}
use anchor_staking_relayer.MarketState.{Config, State, Store, Borrow}
use anchor_staking_relayer.Querier.{query_balance, deduct_tax}
use anchor_staking_relayer.Deposit.Rate.{compute_exchange_rate, assert_redeem_amount}
use anchor_staking_relayer.Deposit.{accrued, redeem_messages, redeem_accrued, redeem_stable}
use anchor_staking_relayer.Handler.{writes}
use anchor_staking_relayer.Handler.Keeps.{bind_succeeds}
use anchor_staking_relayer.Handler.Inversion.{lift_inv, known_inv, panic_inv, check_inv, writes_inv}
use anchor_staking_relayer.Deposit.Accrual.{accrued_inv}

module _ {S : Type 0} (n : BigNumber) (d : Deps) (store : Store S) (borrow : Borrow S) (env : Env)
    (config : Config) (s : S) where
  -- What a redemption has gone through.
  pub record Redeemed (sender : Text) (burn_amount : ℕ) (resp : Response) (s' : S) : Type 0 where
    pub state : State
    pub rate : ℕ
    pub redeem_amount : ℕ
    pub current_balance : ℕ
    pub supply : ℕ
    pub contract_addr : Text
    pub msg : Binary
    pub amount : ℕ
    pub coin : Coin
    pub accrual : accrued n d store borrow env config none s ≡ (ok state, s)
    pub rated : compute_exchange_rate n d config state none ≡ ok rate
    pub redeemed : n.mul_decimal burn_amount rate ≡ some redeem_amount
    pub held : query_balance d env.contract_address config.stable_denom ≡ ok current_balance
    pub covered : assert_redeem_amount n config state current_balance redeem_amount ≡ ok tt
    pub recorded : n.sub state.prev_aterra_supply burn_amount ≡ some supply
    pub stored : store.store_state (record state { prev_aterra_supply = supply }) s ≡ ok s'
    pub known : d.api.addr_humanize config.aterra_contract ≡ ok contract_addr
    pub encoded : d.cw20_execute_msg.to_binary (burn burn_amount) ≡ ok msg
    pub narrowed : n.into_uint128 redeem_amount ≡ some amount
    pub taxed : deduct_tax n d (record { denom = config.stable_denom; amount = amount }) ≡ ok coin
    pub messages :
        resp.messages ≡ wasm_execute contract_addr [] msg ∷ bank_send sender (coin ∷ []) ∷ []

  redeem_accrued_inv :
      (sender : Text) (burn_amount : ℕ) (resp : Response) (s' : S) (state : State)
      → accrued n d store borrow env config none s ≡ (ok state, s)
      → redeem_accrued n d store borrow env config sender burn_amount state s ≡ (ok resp, s')
      → Redeemed sender burn_amount resp s'
  unfolding redeem_accrued redeem_messages
  redeem_accrued_inv sender burn_amount resp s' state accrual done =
      let (rate, rated, d1) = lift_inv s s' (compute_exchange_rate n d config state none) _ done in
      let (redeem_amount, redeemed, d2) = panic_inv s s' (n.mul_decimal burn_amount rate) _ d1 in
      let (current_balance, held, d3) =
        lift_inv s s' (query_balance d env.contract_address config.stable_denom) _ d2 in
      let (covered, d4) =
        check_inv s s' (assert_redeem_amount n config state current_balance redeem_amount) _ d3 in
      let (supply, left, d5) = panic_inv s s' (n.sub state.prev_aterra_supply burn_amount) _ d4 in
      let (u, s2, w, d6) =
        bind_succeeds (writes (store.store_state (record state { prev_aterra_supply = supply })))
          (λ u. redeem_messages n d store borrow config sender burn_amount redeem_amount) s s' resp
          d5 in
      let (contract_addr, known, d7) =
        lift_inv s2 s' (d.api.addr_humanize config.aterra_contract) _ d6 in
      let (msg, encoded, d8) =
        lift_inv s2 s' (d.cw20_execute_msg.to_binary (burn burn_amount)) _ d7 in
      let (amount, narrowed, d9) = panic_inv s2 s' (n.into_uint128 redeem_amount) _ d8 in
      let (coin, taxed, d10) =
        lift_inv s2 s' (deduct_tax n d (record { denom = config.stable_denom; amount = amount })) _
          d9 in
      record {
        state = state;
        rate = rate;
        redeem_amount = redeem_amount;
        current_balance = current_balance;
        supply = supply;
        contract_addr = contract_addr;
        msg = msg;
        amount = amount;
        coin = coin;
        accrual = accrual;
        rated = rated;
        redeemed = redeemed;
        held = held;
        covered = covered;
        recorded = left;
        stored = ground (
          arith,
          writes_inv (store.store_state (record state { prev_aterra_supply = supply })) s s2 w,
          d10,
        );
        known = known;
        encoded = encoded;
        narrowed = narrowed;
        taxed = taxed;
        messages = ground (arith, d10);
      }

  pub redeem_stable_inv :
      store.read_config s ≡ ok config
      → (sender : Text) (burn_amount : ℕ) (resp : Response) (s' : S)
      → redeem_stable n d store borrow env sender burn_amount s ≡ (ok resp, s')
      → Redeemed sender burn_amount resp s'
  unfolding redeem_stable
  redeem_stable_inv configured sender burn_amount resp s' done =
      let d1 = known_inv s s' (store.read_config s) config _ configured done in
      let (state, accrual, d2) =
        accrued_inv n d store borrow env config s none
          (redeem_accrued n d store borrow env config sender burn_amount) resp s' d1 in
      redeem_accrued_inv sender burn_amount resp s' state accrual d2
