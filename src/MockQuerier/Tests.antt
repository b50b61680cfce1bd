-- ===== src/MockQuerier/Tests.antt =====
-- `oracle_price_querier` and `tax_rate_querier` of packages/moneymarket/src/testing.rs, and the
-- theorems at the mock that they configure.
use anchor_staking_relayer.Prelude.{◌≡◌, refl, none, some, List, [], ◌∷◌}
use anchor_staking_relayer.Bytes.{Text, text, bytes_eq}
use anchor_staking_relayer.Outcome.{ok, err}
use anchor_staking_relayer.Platform.{other}
use anchor_staking_relayer.Deps.{Deps}
use anchor_staking_relayer.Deps.Sample.{sample_deps}
use anchor_staking_relayer.Querier.{check_time, query_price, too_old}
use anchor_staking_relayer.HashMap.{bytes_key, pair_key}
use anchor_staking_relayer.MockQuerier.{
  treasury, tax_rate, tax_cap, custom, standard, Price, with_tax, with_oracle_price, handle_query,
}
use anchor_staking_relayer.MockQuerier.Sample.{
  rate_codec, cap_codec, query_codec, query_codec-RoundTrips, price_codec-RoundTrips, nothing_else,
  from_querier,
}
use anchor_staking_relayer.MockQuerier.Laws.{
  handle_query-with_tax, query_price-with_oracle_price, query_price-without_oracle_price,
}

abbrev rows : List ((Text × Text) × Price)
rows =
    ((text "terra123123", text "uusd"), (7, 1, 2))
    ∷ ((text "terra123123", text "uusd"), (65_500_000_000_000_000_000, 123, 321))
    ∷ []

abbrev mock_deps : Deps
mock_deps = record sample_deps {
  oracle_query_msg = query_codec;
  raw_query = λ request. from_querier (
      handle_query rate_codec cap_codec sample_deps.price_response query_codec
        (with_oracle_price rows nothing_else) (standard request));
}

handle_query-with_tax_run :
    (handle_query rate_codec cap_codec sample_deps.price_response query_codec
        (with_tax 10_000_000_000_000_000 ((text "uusd", 1_000_000) ∷ []) nothing_else)
        (custom treasury tax_rate)
      ≡ ok (ok (10_000_000_000_000_000 ∷ [])))
    × (handle_query rate_codec cap_codec sample_deps.price_response query_codec
          (with_tax 10_000_000_000_000_000 ((text "uusd", 1_000_000) ∷ []) nothing_else)
          (custom treasury (tax_cap (text "uusd")))
        ≡ ok (ok (1_000_000 ∷ [])))
unfolding bytes_eq
handle_query-with_tax_run =
    handle_query-with_tax rate_codec cap_codec sample_deps.price_response query_codec nothing_else
      10_000_000_000_000_000 ((text "uusd", 1_000_000) ∷ []) (text "uusd")

query_price-with_oracle_price_example :
    query_price mock_deps
      (text "oracle")
      (text "terra123123")
      (text "uusd")
      (some (record { block_time = 500; valid_timeframe = 60 }))
    ≡ err too_old
unfolding check_time bytes_eq
query_price-with_oracle_price_example =
    query_price-with_oracle_price rate_codec cap_codec nothing_else mock_deps query_codec-RoundTrips
      price_codec-RoundTrips rows from_querier (λ b. refl) (λ a b. refl) (text "oracle")
      (text "terra123123") (text "uusd") (11 ∷ text "terra123123uusd") refl
      (some (record { block_time = 500; valid_timeframe = 60 }))
      (65_500_000_000_000_000_000, 123, 321) (65_500_000_000_000_000_000 ∷ 123 ∷ 321 ∷ []) refl refl

query_price-without_oracle_price_example :
    query_price mock_deps (text "oracle") (text "terra123123") (text "ukrw") none
    ≡ err (other (text "No oracle price exists"))
unfolding bytes_eq
query_price-without_oracle_price_example =
    query_price-without_oracle_price rate_codec cap_codec nothing_else mock_deps
      query_codec-RoundTrips price_codec-RoundTrips rows from_querier (λ b. refl) (λ a b. refl)
      (text "oracle") (text "terra123123") (text "ukrw") (11 ∷ text "terra123123ukrw") refl none
      (other (text "No oracle price exists")) refl refl
