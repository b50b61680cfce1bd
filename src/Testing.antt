-- ===== src/Testing.antt =====
-- packages/moneymarket/src/testing.rs: the unit tests of the queries and of the token arithmetic. A
-- test ends in a value or in the panic of an assertion; two of them are expected to panic.
mod Runs
use anchor_staking_relayer.Prelude.{
  ℕ, ◌*◌, ◌/◌, Bool, true, false, ◌&&◌, Option, none, some, List, [], ◌∷◌, ◌++◌, length, ◌==◌,
  if◌then◌else◌,
}
use anchor_staking_relayer.Bytes.{Bytes, Text, text, bytes_eq}
use anchor_staking_relayer.Outcome.{Outcome, ok, err, panic, ◌>>=◌, ◌>>◌, or_panic}
use anchor_staking_relayer.BigNumber.{BigNumber, decimal_one}
use anchor_staking_relayer.Platform.{StdError, generic_err, other, StdResult, Coin}
use anchor_staking_relayer.Oracle.{PriceResponse}
use anchor_staking_relayer.Deps.{Deps}
use anchor_staking_relayer.Querier.{
  query_tax_rate, compute_tax, deduct_tax, query_price, TimeConstraints,
}
use anchor_staking_relayer.MockQuerier.{
  Request, QuerierResult, WasmMockQuerier, new, with_tax, with_oracle_price,
}
use anchor_staking_relayer.Tokens.{Token, Tokens, TokensHuman, sub, add, to_raw}
use anchor_staking_relayer.Tokens.While.Arrays.{get_elem?}

abbrev Test : Type 0
Test = StdResult (Unit {0})

-- `assert!`
abbrev assert : Bool → Test
assert c = if c then ok tt else panic

-- `unwrap`, `unwrap_err` and `is_err`
module _ {A : Type 0} where
  abbrev unwrap : StdResult A → StdResult A
  unwrap (ok a) = ok a
  unwrap (err e) = panic
  unwrap panic = panic

  abbrev unwrap_err : StdResult A → StdResult StdError
  unwrap_err (ok a) = panic
  unwrap_err (err e) = ok e
  unwrap_err panic = panic

  abbrev is_err : StdResult A → StdResult Bool
  is_err (ok a) = ok false
  is_err (err e) = ok true
  is_err panic = panic

  -- `let _ =`
  abbrev ignore : StdResult A → Test
  ignore (ok a) = ok tt
  ignore (err e) = ok tt
  ignore panic = panic

-- `Decimal::percent`, and `Decimal256::from_ratio`.
abbrev percent : ℕ → ℕ
percent a = a * 10_000_000_000_000_000

abbrev from_ratio : ℕ → ℕ → ℕ
from_ratio a b = a * decimal_one / b

abbrev coin_eq : Coin → Coin → Bool
coin_eq a b = bytes_eq a.denom b.denom && (a.amount == b.amount)

abbrev price_eq : PriceResponse → PriceResponse → Bool
price_eq a b =
    (a.rate == b.rate)
    && ((a.last_updated_base == b.last_updated_base)
        && (a.last_updated_quote == b.last_updated_quote))

-- The `match` on the last answer of `oracle_price_querier`.
abbrev assert_too_old : StdResult PriceResponse → Test
assert_too_old (err (generic_err msg)) = assert (bytes_eq msg (text "Price is too old"))
assert_too_old (err (other msg)) = panic
assert_too_old (ok price) = panic
assert_too_old panic = panic

abbrev amount : ℕ
amount = 1_000_000

abbrev coin : ℕ → Coin
coin a = record { denom = text "uusd"; amount = a }

-- The four tokens of `tokens_math` and of `token_math_invalid_token`.
abbrev four_tokens : TokensHuman
four_tokens =
    (text "token1", amount)
    ∷ (text "token2", amount)
    ∷ (text "token3", amount)
    ∷ (text "token5", amount)
    ∷ []

-- The canonical addresses of `tokens_math_normal_add`, of 54 bytes.
abbrev zeros : Bytes
zeros =
    0 ∷ 0 ∷ 0 ∷ 0 ∷ 0 ∷ 0 ∷ 0 ∷ 0 ∷ 0 ∷ 0 ∷ 0 ∷ 0 ∷ 0 ∷ 0 ∷ 0 ∷ 0 ∷ 0 ∷ 0 ∷ 0 ∷ 0 ∷ 0 ∷ 0 ∷ 0 ∷ 0
    ∷ 0 ∷ []

abbrev account : ℕ → Bytes
account i = 1 ∷ 1 ∷ 1 ∷ i ∷ (zeros ++ (zeros ++ []))

-- `mock_dependencies` is the mock over the `MockQuerier` of `cosmwasm_std`, whose answers are
-- `base`; `as_ref` is the platform with the mock for its querier.
module _ (n : BigNumber) (base : Request → QuerierResult) (as_ref : WasmMockQuerier → Deps) where
  abbrev plain : Deps
  plain = as_ref (new base)

  tax_rate_querier : Test
  tax_rate_querier = do
    let deps = as_ref (with_tax (percent 1) [] (new base))
    rate ← unwrap (query_tax_rate deps)
    assert (rate == percent 1)

  -- The mock of the two tests of the tax: a rate of 1%, and at most 1_000_000.
  abbrev taxed : Deps
  taxed = as_ref (with_tax (percent 1) ((text "uusd", amount) ∷ []) (new base))

  test_compute_tax : Test
  test_compute_tax = do
    capped ← unwrap (compute_tax n taxed (coin 10_000_000_000))
    assert (capped == 1_000_000)
    normal ← unwrap (compute_tax n taxed (coin 50_000_000))
    assert (normal == 495_050)

  test_deduct_tax : Test
  test_deduct_tax = do
    capped ← unwrap (deduct_tax n taxed (coin 10_000_000_000))
    assert (coin_eq capped (coin 9_999_000_000))
    normal ← unwrap (deduct_tax n taxed (coin 50_000_000))
    assert (coin_eq normal (coin 49_504_950))

  oracle_price_querier : Test
  oracle_price_querier = do
    let deps = as_ref (
        with_oracle_price (((text "terra123123", text "uusd"), (from_ratio 131 2, 123, 321)) ∷ [])
          (new base))
    oracle_price ← unwrap (query_price deps (text "oracle") (text "terra123123") (text "uusd") none)
    assert (
        price_eq oracle_price
          (record { rate = from_ratio 131 2; last_updated_base = 123; last_updated_quote = 321 }))
    e ← unwrap_err (query_price deps (text "oracle") (text "terra123123") (text "ukrw") none)
    assert_too_old (
        query_price deps (text "oracle") (text "terra123123") (text "uusd")
          (some (record { block_time = 500; valid_timeframe = 60 })))

  -- A difference of `tokens_math`, which has to be an error.
  assert_sub_fails : Tokens → Tokens → Test
  assert_sub_fails self tokens = do failed ← is_err (sub n self tokens).1; assert failed

  tokens_math : Test
  unfolding assert_sub_fails
  tokens_math = do
    tokens_1_raw ← unwrap (to_raw plain.api four_tokens)
    tokens_2_raw ←
        unwrap (to_raw plain.api ((text "token1", amount) ∷ (text "token4", amount) ∷ []))
    tokens_3_raw ←
        unwrap (to_raw plain.api ((text "token1", amount) ∷ (text "token6", amount) ∷ []))
    tokens_4_raw ←
        unwrap (to_raw plain.api ((text "token1", amount) ∷ (text "token2", 1_200_000) ∷ []))
    assert_sub_fails tokens_1_raw tokens_2_raw
    assert_sub_fails tokens_1_raw tokens_3_raw
    assert_sub_fails tokens_1_raw tokens_4_raw

  tokens_math_normal_add : Test
  tokens_math_normal_add = do
    acct1 ← unwrap (plain.api.addr_humanize (account 1))
    acct2 ← unwrap (plain.api.addr_humanize (account 2))
    acct3 ← unwrap (plain.api.addr_humanize (account 3))
    acct4 ← unwrap (plain.api.addr_humanize (account 4))
    acct5 ← unwrap (plain.api.addr_humanize (account 5))
    tokens_1_raw ← unwrap (
        to_raw plain.api
          ((acct1, amount) ∷ (acct2, amount) ∷ (acct3, amount) ∷ (acct5, amount) ∷ []))
    tokens_2_raw ← unwrap (to_raw plain.api ((acct1, amount) ∷ (acct4, amount) ∷ []))
    total ← add n tokens_1_raw tokens_2_raw
    first ← or_panic (get_elem? total 0)
    assert (first.1 == 2_000_000)
    assert (length total == 5)

  token_math_zero_token : Test
  token_math_zero_token = do
    tokens_1_raw ←
        unwrap (to_raw plain.api ((text "token1", amount) ∷ (text "token2", amount) ∷ []))
    tokens_2_raw ←
        unwrap (to_raw plain.api ((text "token1", amount) ∷ (text "token2", amount) ∷ []))
    done ← unwrap (sub n tokens_1_raw tokens_2_raw).1
    assert (length (sub n tokens_1_raw tokens_2_raw).0 == 0)

  token_math_invalid_token : Test
  token_math_invalid_token = do
    tokens_1_raw ← unwrap (to_raw plain.api four_tokens)
    tokens_2_raw ← unwrap (
        to_raw plain.api
          ((text "token1", amount) ∷ (text "token1", amount) ∷ (text "token3", amount) ∷ []))
    ignore (sub n tokens_1_raw tokens_2_raw).1

  token_math_invalid_token_2 : Test
  token_math_invalid_token_2 = do
    tokens_1_raw ← unwrap (
        to_raw plain.api (
          (text "token1", amount)
          ∷ (text "token2", amount)
          ∷ (text "token2", amount)
          ∷ (text "token3", amount)
          ∷ (text "token5", amount)
          ∷ []))
    tokens_2_raw ← unwrap (
        to_raw plain.api
          ((text "token1", amount) ∷ (text "token2", amount) ∷ (text "token3", amount) ∷ []))
    ignore (sub n tokens_1_raw tokens_2_raw).1
