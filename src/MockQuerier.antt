-- ===== src/MockQuerier.antt =====
-- packages/moneymarket/src/mock_querier.rs: the querier with which the unit tests replace the
-- chain. `MockQuerier`, the encodings and the texts of errors are parameters.
pub mod Laws
pub mod Sample
mod Tests
use anchor_staking_relayer.Prelude.{ℕ, Option, none, some, List, [], ◌∷◌}
use anchor_staking_relayer.Bytes.{Bytes, Text, text}
use anchor_staking_relayer.Outcome.{Outcome, ok, err, panic}
use anchor_staking_relayer.Platform.{StdError, StdResult, Binary, Codec}
use anchor_staking_relayer.Oracle
use anchor_staking_relayer.Oracle.{PriceResponse}
use anchor_staking_relayer.Deps.{QueryRequest, wasm_smart}
use anchor_staking_relayer.HashMap.{Key, bytes_key, pair_key, get, insert_all}

-- `TerraRoute` and `TerraQuery`, in the variants that the code names.
pub data TerraRoute : Type 0 where
  treasury : TerraRoute
  other_route : Text → TerraRoute

pub data TerraQuery : Type 0 where
  tax_rate : TerraQuery
  tax_cap : Text → TerraQuery
  other_query : Text → TerraQuery

-- `QueryRequest<TerraQueryWrapper>`: `Custom`, and the requests that every chain has.
pub data Request : Type 0 where
  custom : TerraRoute → TerraQuery → Request
  standard : QueryRequest → Request

pub record TaxRateResponse : Type 0 where
  pub rate : ℕ

pub record TaxCapResponse : Type 0 where
  pub cap : ℕ

-- `SystemError::InvalidRequest`: the error and the request.
pub data SystemError : Type 0 where
  invalid_request : Text → Bytes → SystemError

-- `QuerierResult`. The error of a contract is kept before it is displayed.
abbrev pub QuerierResult : Type 0
QuerierResult = Outcome SystemError (StdResult Binary)

-- `SystemResult::Ok(ContractResult::from(r))`
abbrev pub answered : StdResult Binary → QuerierResult
answered (ok b) = ok (ok b)
answered (err e) = ok (err e)
answered panic = panic

pub record TaxQuerier : Type 0 where
  pub rate : ℕ
  pub caps : List (Text × ℕ)

abbrev pub Price : Type 0
Price = ℕ × ℕ × ℕ

pub record OraclePriceQuerier : Type 0 where
  pub oracle_price : List ((Text × Text) × Price)

unfoldable pub caps_to_map : List (Text × ℕ) → List (Text × ℕ)
caps_to_map caps = insert_all caps []

unfoldable pub oracle_price_to_map : List ((Text × Text) × Price) → List ((Text × Text) × Price)
oracle_price_to_map oracle_price = insert_all oracle_price []

pub record WasmMockQuerier : Type 0 where
  -- `MockQuerier::handle_query`
  pub base : Request → QuerierResult
  pub tax_querier : TaxQuerier
  pub oracle_price_querier : OraclePriceQuerier

-- `WasmMockQuerier::new`
abbrev pub new : (Request → QuerierResult) → WasmMockQuerier
new base = record {
  base = base;
  tax_querier = record { rate = 0; caps = [] };
  oracle_price_querier = record { oracle_price = [] };
}

unfoldable pub with_tax : ℕ → List (Text × ℕ) → WasmMockQuerier → WasmMockQuerier
unfolding caps_to_map
with_tax rate caps mock = record mock {
  tax_querier = record { rate = rate; caps = caps_to_map caps };
}

unfoldable pub with_oracle_price : List ((Text × Text) × Price) → WasmMockQuerier → WasmMockQuerier
unfolding oracle_price_to_map
with_oracle_price oracle_price mock = record mock {
  oracle_price_querier = record { oracle_price = oracle_price_to_map oracle_price };
}

abbrev pub or_default : Option ℕ → ℕ
or_default none = 0
or_default (some cap) = cap

abbrev pub to_response : Price → PriceResponse
to_response v = record { rate = v.0; last_updated_base = v.1; last_updated_quote = v.2 }

module _ (tax_rate_response : Codec TaxRateResponse) (tax_cap_response : Codec TaxCapResponse)
    (price_response : Codec PriceResponse) (oracle_query_msg : Codec Oracle.QueryMsg) where
  -- The query of the treasury; the others have no arm that returns.
  unfoldable pub treasury_query : TaxQuerier → TerraQuery → QuerierResult
  treasury_query tax tax_rate = answered (tax_rate_response.to_binary (record { rate = tax.rate }))
  treasury_query tax (tax_cap denom) =
      answered (tax_cap_response.to_binary (record { cap = or_default (get denom tax.caps) }))
  treasury_query tax (other_query name) = panic

  -- The query of a contract, which is taken for an oracle.
  unfoldable pub oracle_query : OraclePriceQuerier → Binary → QuerierResult
  oracle_query oracle msg = elim (oracle_query_msg.from_binary msg) [
    | ok (Oracle.QueryMsg.price base quote) ↦ elim (get (base, quote) oracle.oracle_price) [
      | none ↦ err (invalid_request (text "No oracle price exists") msg)
      | some v ↦ answered (price_response.to_binary (to_response v))
    ]
    | ok m ↦ panic
    | err e ↦ panic
    | panic ↦ panic
  ]

  unfoldable pub handle_query : WasmMockQuerier → Request → QuerierResult
  unfolding treasury_query oracle_query
  handle_query mock (custom treasury query_data) = treasury_query mock.tax_querier query_data
  handle_query mock (custom (other_route name) query_data) = panic
  handle_query mock (standard (wasm_smart contract_addr msg)) =
      oracle_query mock.oracle_price_querier msg
  handle_query mock (standard request) = mock.base (standard request)

  module _ (request : Codec Request) (display : StdError → Text) where
    unfoldable pub raw_query : WasmMockQuerier → Bytes → QuerierResult
    unfolding handle_query
    raw_query mock bin_request = elim (request.from_binary bin_request) [
      | ok v ↦ handle_query mock v
      | err e ↦ err (invalid_request (display e) bin_request)
      | panic ↦ panic
    ]
