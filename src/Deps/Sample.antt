-- ===== src/Deps/Sample.antt =====
-- A small platform for the tests: addresses are their own canonical form, a message is encoded as
-- a tag and its fields, and the queries have fixed answers.
use anchor_staking_relayer.Prelude.{ℕ, [], ◌∷◌, ◌++◌, ◌≡◌, arith, ◌==◌, if◌then◌else◌}
use anchor_staking_relayer.Bytes.{text}
use anchor_staking_relayer.Outcome.{ok, err}
use anchor_staking_relayer.Platform.{
  StdResult, other, Binary, Api, RoundTrips, IsInverse, Coin, Cw20ExecuteMsg, mint, burn,
}
use anchor_staking_relayer.Market.{Cw20HookMsg, redeem_stable}
use anchor_staking_relayer.Oracle.{QueryMsg, price, PriceResponse}
use anchor_staking_relayer.Deps.{
  QueryRequest, bank_all_balances, bank_balance, wasm_smart, Cw20QueryMsg, balance, token_info,
  TokenInfoResponse, Deps,
}

abbrev pub sample_api : Api
sample_api = record {
  addr_validate = λ a. ok a;
  addr_canonicalize = λ a. ok a;
  addr_humanize = λ a. ok a;
  canonical_address = λ a. ok a;
  human_address = λ a. ok a;
}

pub sample_api-IsInverse : IsInverse sample_api
sample_api-IsInverse = record { humanize_canonicalize = λ human raw e. ground arith }

abbrev malformed : {A : Type 0} → StdResult A
malformed = err (other (text "parse"))

abbrev encode_cw20_query : Cw20QueryMsg → StdResult Binary
encode_cw20_query (balance a) = ok (1 ∷ a)
encode_cw20_query token_info = ok (2 ∷ [])

abbrev encode_oracle_query : QueryMsg → StdResult Binary
encode_oracle_query (price base quote) = ok (3 ∷ (base ++ quote))
encode_oracle_query m = malformed

abbrev encode_cw20_execute : Cw20ExecuteMsg → StdResult Binary
encode_cw20_execute (mint recipient amount) = ok (4 ∷ amount ∷ recipient)
encode_cw20_execute (burn amount) = ok (5 ∷ amount ∷ [])

abbrev decode_cw20_execute : Binary → StdResult Cw20ExecuteMsg
decode_cw20_execute (k ∷ amount ∷ recipient) =
    if k == 4 then ok (mint recipient amount) else ok (burn amount)
decode_cw20_execute b = malformed

abbrev decode_coin : Binary → StdResult Coin
decode_coin [] = malformed
decode_coin (a ∷ d) = ok (record { denom = d; amount = a })

abbrev decode_number : Binary → StdResult ℕ
decode_number [] = malformed
decode_number (a ∷ rest) = ok a

abbrev decode_token_info : Binary → StdResult TokenInfoResponse
decode_token_info [] = malformed
decode_token_info (a ∷ rest) = ok (record { total_supply = a })

abbrev decode_price : Binary → StdResult PriceResponse
decode_price (r ∷ b ∷ q ∷ rest) =
    ok (record { rate = r; last_updated_base = b; last_updated_quote = q })
decode_price other_message = malformed

abbrev decode_hook : Binary → StdResult Cw20HookMsg
decode_hook [] = ok redeem_stable
decode_hook (a ∷ rest) = malformed

-- The balance of the contract is 1_000_000 and the supply of aTerra 400_000; a price is 65.5, with
-- times 470 and 480.
abbrev answers : QueryRequest → StdResult Binary
answers (bank_all_balances a) = malformed
answers (bank_balance a d) = ok (1_000_000 ∷ d)
answers (wasm_smart a []) = malformed
answers (wasm_smart a (k ∷ rest)) =
    if k == 2 then ok (400_000 ∷ []) else ok (65_500_000_000_000_000_000 ∷ 470 ∷ 480 ∷ [])

-- The tax is 1%, at most 1_000_000.
abbrev pub sample_deps : Deps
sample_deps = record {
  api = sample_api;
  raw_query = answers;
  tax_rate = ok 10_000_000_000_000_000;
  tax_cap = λ denom. ok 1_000_000;
  cw20_query_msg = record { to_binary = encode_cw20_query; from_binary = λ b. malformed };
  oracle_query_msg = record { to_binary = encode_oracle_query; from_binary = λ b. malformed };
  all_balance_response = record { to_binary = λ cs. malformed; from_binary = λ b. malformed };
  balance_response = record { to_binary = λ c. ok (c.amount ∷ c.denom); from_binary = decode_coin };
  uint128 = record { to_binary = λ a. ok (a ∷ []); from_binary = decode_number };
  token_info_response = record {
    to_binary = λ t. ok (t.total_supply ∷ []);
    from_binary = decode_token_info;
  };
  price_response = record {
    to_binary = λ p. ok (p.rate ∷ p.last_updated_base ∷ p.last_updated_quote ∷ []);
    from_binary = decode_price;
  };
  cw20_execute_msg = record { to_binary = encode_cw20_execute; from_binary = decode_cw20_execute };
  cw20_hook_msg = record { to_binary = λ h. ok []; from_binary = decode_hook };
}

pub cw20_execute_msg-RoundTrips : RoundTrips sample_deps.cw20_execute_msg
cw20_execute_msg-RoundTrips = record { from-to = trips }
  where
    trips :
        (m : Cw20ExecuteMsg) (b : Binary)
        → encode_cw20_execute m ≡ ok b
        → decode_cw20_execute b ≡ ok m
    trips (mint recipient amount) b e = ground arith
    trips (burn amount) b e = ground arith
