-- ===== src/MockQuerier/Sample.antt =====
-- Small encodings for the tests of the mock, and a mock that answers nothing else.
use anchor_staking_relayer.Prelude.{ℕ, length, ◌≡◌, [], ◌∷◌, ◌++◌, arith}
use anchor_staking_relayer.Bytes.{text}
use anchor_staking_relayer.Outcome.{ok, err, panic}
use anchor_staking_relayer.Platform.{StdResult, other, Binary, Codec, RoundTrips}
use anchor_staking_relayer.Platform.Sample.{split, split-append}
use anchor_staking_relayer.Oracle
use anchor_staking_relayer.Oracle.{PriceResponse}
use anchor_staking_relayer.Deps.Sample.{sample_deps}
use anchor_staking_relayer.HashMap.{bytes_key, pair_key}
use anchor_staking_relayer.MockQuerier.{
  TaxRateResponse, TaxCapResponse, invalid_request, QuerierResult, WasmMockQuerier, new,
}

abbrev malformed : {A : Type 0} → StdResult A
malformed = err (other (text "parse"))

abbrev number_codec : {A : Type 0} → (A → ℕ) → (ℕ → A) → Codec A
number_codec f g = record {
  to_binary = λ a. ok (f a ∷ []);
  from_binary = λ b. elim b [ [] ↦ malformed | n ∷ rest ↦ ok (g n) ];
}

abbrev pub rate_codec : Codec TaxRateResponse
rate_codec = number_codec (λ r. r.rate) (λ n. record { rate = n })

abbrev pub cap_codec : Codec TaxCapResponse
cap_codec = number_codec (λ r. r.cap) (λ n. record { cap = n })

abbrev encode_price_query : Oracle.QueryMsg → StdResult Binary
encode_price_query (Oracle.QueryMsg.price base quote) = ok (length base ∷ (base ++ quote))
encode_price_query m = malformed

abbrev decode_price_query : Binary → StdResult Oracle.QueryMsg
decode_price_query [] = malformed
decode_price_query (n ∷ rest) =
    let (base, quote) = split n rest in ok (Oracle.QueryMsg.price base quote)

abbrev pub query_codec : Codec Oracle.QueryMsg
query_codec = record { to_binary = encode_price_query; from_binary = decode_price_query }

pub query_codec-RoundTrips : RoundTrips query_codec
query_codec-RoundTrips = record { from-to = trips }
  where
    trips :
        (m : Oracle.QueryMsg) (b : Binary)
        → encode_price_query m ≡ ok b
        → decode_price_query b ≡ ok m
    trips (Oracle.QueryMsg.price base quote) b e = ground (arith, split-append base quote)
    trips Oracle.QueryMsg.config b e = absurd (ground arith)
    trips (Oracle.QueryMsg.feeder a) b e = absurd (ground arith)
    trips (Oracle.QueryMsg.prices a l) b e = absurd (ground arith)

pub price_codec-RoundTrips : RoundTrips sample_deps.price_response
price_codec-RoundTrips = record { from-to = λ p b e. ground arith }

abbrev pub nothing_else : WasmMockQuerier
nothing_else = new (λ r. panic)

abbrev pub from_querier : QuerierResult → StdResult Binary
from_querier (ok answer) = answer
from_querier (err (invalid_request error request)) = err (other error)
from_querier panic = panic
