-- ===== src/MockQuerier/Laws.antt =====
-- What the mock answers once it is configured, and what `query_price` and the taxes make of it.
use anchor_staking_relayer.Prelude.{ℕ, ◌≡◌, Option, none, some, List, [], arith}
use anchor_staking_relayer.Bytes.{Text, text}
use anchor_staking_relayer.Outcome.{ok, err}
use anchor_staking_relayer.Platform.{StdError, StdResult, Binary, Codec, RoundTrips}
use anchor_staking_relayer.Oracle
use anchor_staking_relayer.Oracle.{PriceResponse}
use anchor_staking_relayer.Deps.{Deps, wasm_smart}
use anchor_staking_relayer.Querier.{TimeConstraints, check_time, query_price}
use anchor_staking_relayer.HashMap.{bytes_key, pair_key, get, last_row}
use anchor_staking_relayer.HashMap.Laws.{get-insert_all}
use anchor_staking_relayer.MockQuerier.{
  treasury, tax_rate, tax_cap, Request, custom, standard, TaxRateResponse, TaxCapResponse,
  invalid_request, QuerierResult, answered, Price, WasmMockQuerier, with_tax, with_oracle_price,
  caps_to_map, oracle_price_to_map, or_default, to_response, treasury_query, oracle_query,
  handle_query,
}

module _ (tax_rate_response : Codec TaxRateResponse) (tax_cap_response : Codec TaxCapResponse)
    (price_response : Codec PriceResponse) (oracle_query_msg : Codec Oracle.QueryMsg)
    (mock : WasmMockQuerier) where
  abbrev handle : WasmMockQuerier → Request → QuerierResult
  handle = handle_query tax_rate_response tax_cap_response price_response oracle_query_msg

  -- The mock that `with_tax` configures answers the queries of the treasury: the rate, and of a
  -- denomination the cap of its last row, and zero without one.
  pub handle_query-with_tax :
      (rate : ℕ) (caps : List (Text × ℕ)) (denom : Text)
      → (handle (with_tax rate caps mock) (custom treasury tax_rate)
          ≡ answered (tax_rate_response.to_binary (record { rate = rate })))
        × (handle (with_tax rate caps mock) (custom treasury (tax_cap denom))
            ≡ answered (
                tax_cap_response.to_binary
                  (record { cap = or_default (last_row denom caps none) })))
  unfolding handle_query treasury_query with_tax caps_to_map get
  handle_query-with_tax rate caps denom =
      (ground arith, ground (arith, get-insert_all denom caps []))

  pub handle_query-with_oracle_price :
      (rows : List ((Text × Text) × Price)) (contract_addr : Text) (msg : Binary)
      (base quote : Text)
      → oracle_query_msg.from_binary msg ≡ ok (Oracle.QueryMsg.price base quote)
      → handle (with_oracle_price rows mock) (standard (wasm_smart contract_addr msg))
        ≡ (elim (last_row (base, quote) rows none) [
          | none ↦ err (invalid_request (text "No oracle price exists") msg)
          | some v ↦ answered (price_response.to_binary (to_response v))
        ])
  unfolding handle_query oracle_query with_oracle_price oracle_price_to_map get
  handle_query-with_oracle_price rows contract_addr msg base quote decoded =
      ground (arith, decoded, get-insert_all (base, quote) rows [])

-- The end of `query_price`, with a price at hand.
abbrev pub checked_price : Option TimeConstraints → PriceResponse → StdResult PriceResponse
checked_price none price = ok price
checked_price (some c) price = check_time c price

module _ (tax_rate_response : Codec TaxRateResponse) (tax_cap_response : Codec TaxCapResponse)
    (mock : WasmMockQuerier) (d : Deps) (query_trips : RoundTrips d.oracle_query_msg)
    (price_trips : RoundTrips d.price_response) (rows : List ((Text × Text) × Price))
    (from_querier : QuerierResult → StdResult Binary)
    (on_answer : (b : Binary) → from_querier (ok (ok b)) ≡ ok b)
    (answers : (contract_addr : Text) (msg : Binary)
      → d.raw_query (wasm_smart contract_addr msg)
        ≡ from_querier (
            handle_query tax_rate_response tax_cap_response d.price_response d.oracle_query_msg
              (with_oracle_price rows mock)
              (standard (wasm_smart contract_addr msg))))
    (oracle_addr base quote : Text) (msg : Binary)
    (asked : d.oracle_query_msg.to_binary (Oracle.QueryMsg.price base quote) ≡ ok msg) where
  -- Where the chain answers as the mock that `with_oracle_price` configures, `query_price` of a pair
  -- with a row gives the price of the last one, if it passes the check of its age with time
  -- constraints; `serde` reads back what it writes, and an answer without errors arrives.
  pub query_price-with_oracle_price :
      (time_constraints : Option TimeConstraints) (v : Price) (answer : Binary)
      → last_row (base, quote) rows none ≡ some v
      → d.price_response.to_binary (to_response v) ≡ ok answer
      → query_price d oracle_addr base quote time_constraints
        ≡ checked_price time_constraints (to_response v)
  unfolding query_price
  query_price-with_oracle_price time_constraints v answer priced encoded = ground (
    arith,
    answers oracle_addr msg,
    handle_query-with_oracle_price tax_rate_response tax_cap_response d.price_response
        d.oracle_query_msg mock rows oracle_addr msg base quote (query_trips.from-to _ msg asked),
    on_answer answer,
    price_trips.from-to _ answer encoded,
  )

  -- Where the chain answers as that mock, `query_price` of a pair without a row returns the error
  -- that the platform makes of "No oracle price exists", with time constraints and without.
  pub query_price-without_oracle_price :
      (time_constraints : Option TimeConstraints) (e : StdError)
      → from_querier (err (invalid_request (text "No oracle price exists") msg)) ≡ err e
      → last_row (base, quote) rows none ≡ none
      → query_price d oracle_addr base quote time_constraints ≡ err e
  unfolding query_price
  query_price-without_oracle_price time_constraints e reported unpriced = ground (
    arith,
    answers oracle_addr msg,
    handle_query-with_oracle_price tax_rate_response tax_cap_response d.price_response
        d.oracle_query_msg mock rows oracle_addr msg base quote (query_trips.from-to _ msg asked),
  )
