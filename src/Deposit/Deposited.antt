-- ===== src/Deposit/Deposited.antt =====
-- What a deposit of src/deposit.rs that succeeded has gone through.
use anchor_staking_relayer.Prelude.{ℕ, ◌≡◌, false, some, [], ◌∷◌, ◌==◌, arith}
use anchor_staking_relayer.Bytes.{Text}
use anchor_staking_relayer.Outcome.{ok}
use anchor_staking_relayer.BigNumber.{BigNumber}
use anchor_staking_relayer.Platform.{Binary, Response, Env, MessageInfo, mint, wasm_execute}
use anchor_staking_relayer.Deps.{Deps}
use anchor_staking_relayer.MarketState.{Config, State, zero_deposit, Store, Borrow}
use anchor_staking_relayer.Deposit.Rate.{compute_exchange_rate}
use anchor_staking_relayer.Deposit.{
  accrued, funds_in, deposit_message, deposit_accrued, deposit_stable,
}
use anchor_staking_relayer.Handler.{writes}
use anchor_staking_relayer.Handler.Keeps.{bind_succeeds}
use anchor_staking_relayer.Handler.Inversion.{lift_inv, known_inv, panic_inv, raise_inv, writes_inv}
use anchor_staking_relayer.Deposit.Accrual.{accrued_inv}

module _ {S : Type 0} (n : BigNumber) (d : Deps) (store : Store S) (borrow : Borrow S) (env : Env)
    (config : Config) (s : S) where
  -- What a deposit has gone through.
  pub record Deposited (info : MessageInfo) (resp : Response) (s' : S) : Type 0 where
    pub state : State
    pub rate : ℕ
    pub mint_amount : ℕ
    pub supply : ℕ
    pub contract_addr : Text
    pub amount : ℕ
    pub msg : Binary
    pub some_deposited : (funds_in config.stable_denom info.funds == 0) ≡ false
    pub accrual :
        accrued n d store borrow env config (some (funds_in config.stable_denom info.funds)) s
        ≡ (ok state, s)
    pub rated :
        compute_exchange_rate n d config state (some (funds_in config.stable_denom info.funds))
        ≡ ok rate
    pub minted : n.div_decimal (funds_in config.stable_denom info.funds) rate ≡ some mint_amount
    pub recorded : n.add state.prev_aterra_supply mint_amount ≡ some supply
    pub stored : store.store_state (record state { prev_aterra_supply = supply }) s ≡ ok s'
    pub known : d.api.addr_humanize config.aterra_contract ≡ ok contract_addr
    pub narrowed : n.into_uint128 mint_amount ≡ some amount
    pub encoded : d.cw20_execute_msg.to_binary (mint info.sender amount) ≡ ok msg
    pub messages : resp.messages ≡ wasm_execute contract_addr [] msg ∷ []

  deposit_accrued_inv :
      (info : MessageInfo) (resp : Response) (s' : S)
      → (funds_in config.stable_denom info.funds == 0) ≡ false
      → (state : State)
      → accrued n d store borrow env config (some (funds_in config.stable_denom info.funds)) s
        ≡ (ok state, s)
      → deposit_accrued n d store borrow config info
          (funds_in config.stable_denom info.funds)
          state
          s
        ≡ (ok resp, s')
      → Deposited info resp s'
  unfolding deposit_accrued deposit_message
  deposit_accrued_inv info resp s' some_deposited state accrual done =
      let deposit_amount = funds_in config.stable_denom info.funds in
      let (rate, rated, d1) =
        lift_inv s s' (compute_exchange_rate n d config state (some deposit_amount)) _ done in
      let (mint_amount, minted, d2) = panic_inv s s' (n.div_decimal deposit_amount rate) _ d1 in
      let (supply, added, d3) = panic_inv s s' (n.add state.prev_aterra_supply mint_amount) _ d2 in
      let (u, s2, w, d4) =
        bind_succeeds (writes (store.store_state (record state { prev_aterra_supply = supply })))
          (λ u. deposit_message n d store borrow config info deposit_amount mint_amount) s s' resp
          d3 in
      let (contract_addr, known, d5) =
        lift_inv s2 s' (d.api.addr_humanize config.aterra_contract) _ d4 in
      let (amount, narrowed, d6) = panic_inv s2 s' (n.into_uint128 mint_amount) _ d5 in
      let (msg, encoded, d7) =
        lift_inv s2 s' (d.cw20_execute_msg.to_binary (mint info.sender amount)) _ d6 in
      record {
        state = state;
        rate = rate;
        mint_amount = mint_amount;
        supply = supply;
        contract_addr = contract_addr;
        amount = amount;
        msg = msg;
        some_deposited = some_deposited;
        accrual = accrual;
        rated = rated;
        minted = minted;
        recorded = added;
        stored = ground (
          arith,
          writes_inv (store.store_state (record state { prev_aterra_supply = supply })) s s2 w,
          d7,
        );
        known = known;
        narrowed = narrowed;
        encoded = encoded;
        messages = ground (arith, d7);
      }

  module _ (configured : store.read_config s ≡ ok config) where
    pub deposit_stable_inv :
        (info : MessageInfo) (resp : Response) (s' : S)
        → deposit_stable n d store borrow env info s ≡ (ok resp, s')
        → Deposited info resp s'
    unfolding deposit_stable deposit_accrued deposit_message
    deposit_stable_inv info resp s' done =
        let deposit_amount = funds_in config.stable_denom info.funds in
        let d0 = known_inv s s' (store.read_config s) config _ configured done in
        let (some_deposited, d1) =
          raise_inv s s' (deposit_amount == 0) (zero_deposit config.stable_denom) _ d0 in
        let (state, accrual, d2) =
          accrued_inv n d store borrow env config s (some deposit_amount)
            (deposit_accrued n d store borrow config info deposit_amount) resp s' d1 in
        deposit_accrued_inv info resp s' some_deposited state accrual d2
