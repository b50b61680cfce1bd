-- ===== src/Testing/Runs.antt =====
-- The unit tests at a small platform, whose queries of the taxes and of contracts the mock answers.
use anchor_staking_relayer.Prelude.{◌≡◌, refl}
use anchor_staking_relayer.Bytes.{bytes_eq, cmp}
use anchor_staking_relayer.Outcome.{ok, panic, ◌>>=◌}
use anchor_staking_relayer.BigNumber.Checked.{checked}
use anchor_staking_relayer.Deps.{Deps}
use anchor_staking_relayer.Deps.Sample.{sample_deps}
use anchor_staking_relayer.Querier.{query_tax_rate, compute_tax, deduct_tax, query_price}
use anchor_staking_relayer.MockQuerier.{
  tax_rate, tax_cap, treasury, Request, custom, standard, QuerierResult, WasmMockQuerier, with_tax,
  with_oracle_price, handle_query,
}
use anchor_staking_relayer.MockQuerier.Sample.{rate_codec, cap_codec, query_codec, from_querier}
use anchor_staking_relayer.HashMap.{get, insert_all}
use anchor_staking_relayer.Tokens.{sub, add, to_raw}
use anchor_staking_relayer.Testing.{
  tax_rate_querier, test_compute_tax, test_deduct_tax, oracle_price_querier, tokens_math,
  tokens_math_normal_add, token_math_zero_token, token_math_invalid_token,
  token_math_invalid_token_2,
}

abbrev no_answer : Request → QuerierResult
no_answer request = panic

abbrev ask : WasmMockQuerier → Request → QuerierResult
ask mock = handle_query rate_codec cap_codec sample_deps.price_response query_codec mock

abbrev as_ref : WasmMockQuerier → Deps
as_ref mock = record sample_deps {
  oracle_query_msg = query_codec;
  raw_query = λ request. from_querier (ask mock (standard request));
  tax_rate = do
    answer ← from_querier (ask mock (custom treasury tax_rate))
    response ← rate_codec.from_binary answer
    ok response.rate;
  tax_cap = λ denom. do
    answer ← from_querier (ask mock (custom treasury (tax_cap denom)))
    response ← cap_codec.from_binary answer
    ok response.cap;
}

tax_rate_querier_passes : tax_rate_querier checked no_answer as_ref ≡ ok tt
unfolding tax_rate_querier query_tax_rate with_tax handle_query
tax_rate_querier_passes = refl

test_compute_tax_passes : test_compute_tax checked no_answer as_ref ≡ ok tt
unfolding test_compute_tax compute_tax with_tax handle_query get insert_all bytes_eq checked
test_compute_tax_passes = refl

test_deduct_tax_passes : test_deduct_tax checked no_answer as_ref ≡ ok tt
unfolding test_deduct_tax deduct_tax with_tax handle_query get insert_all bytes_eq checked
test_deduct_tax_passes = refl

oracle_price_querier_passes : oracle_price_querier checked no_answer as_ref ≡ ok tt
unfolding oracle_price_querier query_price with_oracle_price handle_query get insert_all bytes_eq
oracle_price_querier_passes = refl

tokens_math_passes : tokens_math checked no_answer as_ref ≡ ok tt
unfolding tokens_math sub to_raw bytes_eq cmp checked
tokens_math_passes = refl

tokens_math_normal_add_passes : tokens_math_normal_add checked no_answer as_ref ≡ ok tt
unfolding tokens_math_normal_add add to_raw bytes_eq cmp checked
tokens_math_normal_add_passes = refl

token_math_zero_token_passes : token_math_zero_token checked no_answer as_ref ≡ ok tt
unfolding token_math_zero_token sub to_raw bytes_eq cmp checked
token_math_zero_token_passes = refl

-- The two that are expected to panic.
token_math_invalid_token_panics : token_math_invalid_token checked no_answer as_ref ≡ panic
unfolding token_math_invalid_token sub to_raw bytes_eq cmp checked
token_math_invalid_token_panics = refl

token_math_invalid_token_2_panics : token_math_invalid_token_2 checked no_answer as_ref ≡ panic
unfolding token_math_invalid_token_2 sub to_raw bytes_eq cmp checked
token_math_invalid_token_2_panics = refl
