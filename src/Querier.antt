-- ===== src/Querier.antt =====
-- packages/moneymarket/src/querier.rs: balances, supplies, taxes and prices by queries.
pub mod Tax
pub mod Price
mod Tests
use anchor_staking_relayer.Prelude.{ℕ, ◌-◌, min, Option, none, some, List, ltb, ◌||◌, if◌then◌else◌}
use anchor_staking_relayer.Bytes.{Text, text}
use anchor_staking_relayer.Outcome.{Outcome, ok, err, panic, ◌>>=◌, or_panic}
use anchor_staking_relayer.BigNumber.{BigNumber, decimal_one}
use anchor_staking_relayer.Platform.{StdError, generic_err, StdResult, Coin}
use anchor_staking_relayer.Oracle
use anchor_staking_relayer.Oracle.{PriceResponse}
use anchor_staking_relayer.Deps.{
  Deps, query, bank_all_balances, bank_balance, wasm_smart, Cw20QueryMsg, TokenInfoResponse,
}

pub query_all_balances : Deps → Text → StdResult (List Coin)
query_all_balances d account_addr = query d d.all_balance_response (bank_all_balances account_addr)

unfoldable pub query_balance : Deps → Text → Text → StdResult ℕ
query_balance d account_addr denom = do
  balance ← query d d.balance_response (bank_balance account_addr denom)
  ok balance.amount

-- `unwrap_or_else`: any error of the query reads as zero.
abbrev pub or_zero : StdResult ℕ → StdResult ℕ
or_zero (ok v) = ok v
or_zero (err e) = ok 0
or_zero panic = panic

pub query_token_balance : Deps → Text → Text → StdResult ℕ
query_token_balance d contract_addr account_addr = do
  msg ← d.cw20_query_msg.to_binary (Cw20QueryMsg.balance account_addr)
  or_zero (query d d.uint128 (wasm_smart contract_addr msg))

unfoldable pub query_supply : Deps → Text → StdResult ℕ
query_supply d contract_addr = do
  msg ← d.cw20_query_msg.to_binary Cw20QueryMsg.token_info
  token_info ← query d d.token_info_response (wasm_smart contract_addr msg)
  ok token_info.total_supply

pub query_tax_rate_and_cap : Deps → Text → StdResult (ℕ × ℕ)
query_tax_rate_and_cap d denom = do rate ← d.tax_rate; cap ← d.tax_cap denom; ok (rate, cap)

unfoldable pub query_tax_rate : Deps → StdResult ℕ
query_tax_rate d = d.tax_rate

unfoldable pub compute_tax : BigNumber → Deps → Coin → StdResult ℕ
compute_tax n d coin = do
  tax_rate ← d.tax_rate
  tax_cap ← d.tax_cap coin.denom
  gross ← or_panic (n.mul_decimal coin.amount decimal_one)
  divisor ← or_panic (n.decimal_add decimal_one tax_rate)
  net ← or_panic (n.div_decimal coin.amount divisor)
  tax ← or_panic (n.sub gross net)
  ok (min tax tax_cap)

unfoldable pub deduct_tax : BigNumber → Deps → Coin → StdResult Coin
unfolding compute_tax
deduct_tax n d coin = do
  tax_amount ← compute_tax n d coin
  rest ← or_panic (n.sub coin.amount tax_amount)
  amount ← or_panic (n.into_uint128 rest)
  ok (record { denom = coin.denom; amount = amount })

pub record TimeConstraints : Type 0 where
  pub block_time : ℕ
  pub valid_timeframe : ℕ

abbrev pub too_old : StdError
too_old = generic_err (text "Price is too old")

-- The check of `query_price`. The subtraction is on `u64` under `overflow-checks`: it panics.
unfoldable pub check_time : TimeConstraints → PriceResponse → StdResult PriceResponse
check_time c oracle_price =
    if ltb c.block_time c.valid_timeframe
    then panic
    else (let valid_update_time = c.block_time - c.valid_timeframe in
        if ltb oracle_price.last_updated_base valid_update_time
          || ltb oracle_price.last_updated_quote valid_update_time
        then err too_old
        else ok oracle_price)

unfoldable pub query_price :
    Deps → Text → Text → Text → Option TimeConstraints → StdResult PriceResponse
unfolding check_time
query_price d oracle_addr base quote time_contraints = do
  msg ← d.oracle_query_msg.to_binary (Oracle.QueryMsg.price base quote)
  oracle_price ← query d d.price_response (wasm_smart oracle_addr msg)
  elim time_contraints [ none ↦ ok oracle_price | some c ↦ check_time c oracle_price ]
