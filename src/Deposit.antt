-- ===== src/Deposit.antt =====
-- src/deposit.rs: deposits of the stable coin for aTerra, and their redemption.
pub mod Rate
pub mod DepositLaws
pub mod RedeemLaws
pub mod Accrual
pub mod FirstDeposit
pub mod Frame
pub mod Deposited
pub mod Redeemed
pub mod Refinement
mod RefinementTests
mod Tests
use anchor_staking_relayer.Prelude.{ℕ, Option, none, some, List, [], ◌∷◌, ltb, ◌==◌, if◌then◌else◌}
use anchor_staking_relayer.Bytes.{Text, text, bytes_eq}
use anchor_staking_relayer.Outcome
use anchor_staking_relayer.Outcome.{Outcome, ok, err, or_panic}
use anchor_staking_relayer.BigNumber.{BigNumber, decimal_one}
use anchor_staking_relayer.Platform.{
  StdError, StdResult, Binary, Coin, CosmosMsg, wasm_execute, bank_send, mint, burn, attr, shown,
  number, Response, Env, MessageInfo,
}
use anchor_staking_relayer.Deps.{Deps}
use anchor_staking_relayer.MarketState.{
  Config, State, ContractError, zero_deposit, no_stable_available, Store, Borrow,
}
use anchor_staking_relayer.Querier.{query_balance, query_supply, deduct_tax}
use anchor_staking_relayer.Deposit.Rate.{
  compute_exchange_rate_raw, compute_exchange_rate, assert_redeem_amount,
}
use anchor_staking_relayer.Handler.{Handler, pure, lift, reads, ◌>>=◌, ◌>>◌, raise_if, writes}

-- The first of the funds in the given denom, and zero without one.
unfoldable pub funds_in : Text → List Coin → ℕ
funds_in denom [] = 0
funds_in denom (c ∷ cs) = if bytes_eq c.denom denom then c.amount else funds_in denom cs

-- The responses: the message to the aTerra token, for a redemption the payment too, and the log.
abbrev pub deposit_response : Text → Binary → Text → ℕ → ℕ → Response
deposit_response contract_addr msg sender mint_amount deposit_amount = record {
  submessages = [];
  messages = wasm_execute contract_addr [] msg ∷ [];
  attributes =
      attr (text "action") (shown (text "deposit_stable"))
      ∷ attr (text "depositor") (shown sender)
      ∷ attr (text "mint_amount") (number mint_amount)
      ∷ attr (text "deposit_amount") (number deposit_amount)
      ∷ [];
}

abbrev pub redeem_response : Text → Binary → Text → Coin → ℕ → ℕ → Response
redeem_response contract_addr msg sender coin burn_amount redeem_amount = record {
  submessages = [];
  messages = wasm_execute contract_addr [] msg ∷ bank_send sender (coin ∷ []) ∷ [];
  attributes =
      attr (text "action") (shown (text "redeem_stable"))
      ∷ attr (text "burn_amount") (number burn_amount)
      ∷ attr (text "redeem_amount") (number redeem_amount)
      ∷ [];
}

module _ {S : Type 0} (n : BigNumber) (d : Deps) (store : Store S) (borrow : Borrow S) where
  -- `read_state`, `compute_interest` and `compute_reward`, with which both handlers begin.
  unfoldable pub accrued : Env → Config → Option ℕ → Handler S State
  accrued env config deposit_amount = do
    state ← reads store.read_state
    state' ← reads (λ s. borrow.compute_interest d s config state env.block_height deposit_amount)
    lift (or_panic (borrow.compute_reward state' env.block_height))

  -- The response to a deposit.
  unfoldable pub deposit_message : Config → MessageInfo → ℕ → ℕ → Handler S Response
  deposit_message config info deposit_amount mint_amount = do
    contract_addr ← lift (d.api.addr_humanize config.aterra_contract)
    amount ← lift (or_panic (n.into_uint128 mint_amount))
    msg ← lift (d.cw20_execute_msg.to_binary (mint info.sender amount))
    pure (deposit_response contract_addr msg info.sender mint_amount deposit_amount)

  -- A deposit, once the state has accrued.
  unfoldable pub deposit_accrued : Config → MessageInfo → ℕ → State → Handler S Response
  unfolding deposit_message
  deposit_accrued config info deposit_amount state = do
    exchange_rate ← lift (compute_exchange_rate n d config state (some deposit_amount))
    mint_amount ← lift (or_panic (n.div_decimal deposit_amount exchange_rate))
    supply ← lift (or_panic (n.add state.prev_aterra_supply mint_amount))
    writes (store.store_state (record state { prev_aterra_supply = supply }))
    deposit_message config info deposit_amount mint_amount

  unfoldable pub deposit_stable : Env → MessageInfo → Handler S Response
  unfolding accrued funds_in deposit_accrued
  deposit_stable env info = do
    config ← reads store.read_config
    let deposit_amount = funds_in config.stable_denom info.funds
    raise_if (deposit_amount == 0) (zero_deposit config.stable_denom)
    state ← accrued env config (some deposit_amount)
    deposit_accrued config info deposit_amount state

  -- The response to a redemption.
  unfoldable pub redeem_messages : Config → Text → ℕ → ℕ → Handler S Response
  redeem_messages config sender burn_amount redeem_amount = do
    contract_addr ← lift (d.api.addr_humanize config.aterra_contract)
    msg ← lift (d.cw20_execute_msg.to_binary (burn burn_amount))
    amount ← lift (or_panic (n.into_uint128 redeem_amount))
    coin ← lift (deduct_tax n d (record { denom = config.stable_denom; amount = amount }))
    pure (redeem_response contract_addr msg sender coin burn_amount redeem_amount)

  -- A redemption, once the state has accrued.
  unfoldable pub redeem_accrued : Env → Config → Text → ℕ → State → Handler S Response
  unfolding redeem_messages
  redeem_accrued env config sender burn_amount state = do
    exchange_rate ← lift (compute_exchange_rate n d config state none)
    redeem_amount ← lift (or_panic (n.mul_decimal burn_amount exchange_rate))
    current_balance ← lift (query_balance d env.contract_address config.stable_denom)
    λ s. (assert_redeem_amount n config state current_balance redeem_amount, s)
    supply ← lift (or_panic (n.sub state.prev_aterra_supply burn_amount))
    writes (store.store_state (record state { prev_aterra_supply = supply }))
    redeem_messages config sender burn_amount redeem_amount

  unfoldable pub redeem_stable : Env → Text → ℕ → Handler S Response
  unfolding accrued redeem_accrued
  redeem_stable env sender burn_amount = do
    config ← reads store.read_config
    state ← accrued env config none
    redeem_accrued env config sender burn_amount state
