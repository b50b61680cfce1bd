-- ===== src/Deps.antt =====
-- `Deps`: the platform as a call of the contract sees it. The chain that answers the queries, the
-- conversion of addresses and the encoding of messages are not in the repository, so they are
-- fields of a record that every definition takes.
pub mod Sample
use anchor_staking_relayer.Prelude.{ℕ, List}
use anchor_staking_relayer.Bytes.{Text}
use anchor_staking_relayer.Outcome.{◌>>=◌}
use anchor_staking_relayer.Platform.{StdResult, Binary, Codec, Api, Coin, Cw20ExecuteMsg}
use anchor_staking_relayer.Market.{Cw20HookMsg}
use anchor_staking_relayer.Oracle.{QueryMsg, PriceResponse}

-- `QueryRequest`, in the variants that the code makes.
pub data QueryRequest : Type 0 where
  bank_all_balances : Text → QueryRequest
  bank_balance : Text → Text → QueryRequest
  wasm_smart : Text → Binary → QueryRequest

-- `cw20::Cw20QueryMsg`, in the variants that the code makes.
pub data Cw20QueryMsg : Type 0 where
  balance : Text → Cw20QueryMsg
  token_info : Cw20QueryMsg

-- The field of `cw20::TokenInfoResponse` that the code reads.
pub record TokenInfoResponse : Type 0 where
  pub total_supply : ℕ

pub record Deps : Type 0 where
  pub api : Api
  pub raw_query : QueryRequest → StdResult Binary
  -- `TerraQuerier::query_tax_rate`, in 10^-18ths, and `query_tax_cap` of a denom
  pub tax_rate : StdResult ℕ
  pub tax_cap : Text → StdResult ℕ
  pub cw20_query_msg : Codec Cw20QueryMsg
  pub oracle_query_msg : Codec QueryMsg
  pub all_balance_response : Codec (List Coin)
  pub balance_response : Codec Coin
  pub uint128 : Codec ℕ
  pub token_info_response : Codec TokenInfoResponse
  pub price_response : Codec PriceResponse
  pub cw20_execute_msg : Codec Cw20ExecuteMsg
  pub cw20_hook_msg : Codec Cw20HookMsg

-- `deps.querier.query`: it sends the request and parses the answer.
abbrev pub query : {A : Type 0} → Deps → Codec A → QueryRequest → StdResult A
query d codec request = do answer ← d.raw_query request; codec.from_binary answer
