-- ===== src/Querier/Tests.antt =====
-- Runs of the queries: the amounts of packages/moneymarket/src/testing.rs, and the theorems there.
use anchor_staking_relayer.Prelude.{◌+◌, ◌≤◌, ◌<◌, ◌≡◌, ◌↔◌, refl, some, none, arith}
use anchor_staking_relayer.Bytes.{text}
use anchor_staking_relayer.Outcome.{ok, err, panic}
use anchor_staking_relayer.BigNumber.Checked.{checked, checked-IsExact}
use anchor_staking_relayer.Platform.{Coin}
use anchor_staking_relayer.Oracle.{PriceResponse}
use anchor_staking_relayer.Deps.Sample.{sample_deps}
use anchor_staking_relayer.Querier.{compute_tax, deduct_tax, query_price, TimeConstraints, too_old}
use anchor_staking_relayer.Querier.Tax.{
  reserved_tax, chain_tax, compute_tax-reserved, deduct_tax_pays,
}
use anchor_staking_relayer.Querier.Price.{IsFresh, query_price_checks_age}

abbrev large : Coin
large = record { denom = text "uusd"; amount = 10_000_000_000 }

abbrev normal : Coin
normal = record { denom = text "uusd"; amount = 50_000_000 }

-- `test_compute_tax`: at the cap, and below it.
compute_tax_run :
    (compute_tax checked sample_deps large ≡ ok 1_000_000)
    × (compute_tax checked sample_deps normal ≡ ok 495_050)
unfolding compute_tax checked
compute_tax_run = (refl, refl)

-- `test_deduct_tax`
deduct_tax_run :
    (deduct_tax checked sample_deps large ≡ ok (record large { amount = 9_999_000_000 }))
    × (deduct_tax checked sample_deps normal ≡ ok (record normal { amount = 49_504_950 }))
unfolding deduct_tax checked
deduct_tax_run = (refl, refl)

compute_tax-reserved_example :
    compute_tax checked sample_deps normal
    ≡ ok (reserved_tax 10_000_000_000_000_000 1_000_000 50_000_000)
compute_tax-reserved_example =
    compute_tax-reserved checked checked-IsExact sample_deps normal 10_000_000_000_000_000 1_000_000
      refl refl (omega arith) (omega arith)

deduct_tax_pays_example :
    (out : Coin) × (deduct_tax checked sample_deps normal ≡ ok out)
    × (out.denom ≡ text "uusd")
    × (out.amount + reserved_tax 10_000_000_000_000_000 1_000_000 50_000_000 ≡ 50_000_000)
    × (out.amount + chain_tax 10_000_000_000_000_000 1_000_000 out.amount ≤ 50_000_000)
deduct_tax_pays_example =
    deduct_tax_pays checked checked-IsExact sample_deps normal 10_000_000_000_000_000 1_000_000 refl
      refl (omega arith) (omega arith)

abbrev quoted : PriceResponse
quoted = record {
  rate = 65_500_000_000_000_000_000;
  last_updated_base = 470;
  last_updated_quote = 480;
}

abbrev at_500 : TimeConstraints
at_500 = record { block_time = 500; valid_timeframe = 20 }

-- `oracle_price_querier`
query_price_run :
    (query_price sample_deps (text "oracle") (text "terra") (text "uusd") none ≡ ok quoted)
    × (query_price sample_deps (text "oracle") (text "terra") (text "uusd") (some at_500)
        ≡ err too_old)
unfolding query_price
query_price_run = (refl, refl)

query_price_checks_age_example :
    ((query_price sample_deps (text "oracle") (text "terra") (text "uusd") (some at_500)
        ≡ ok quoted)
      ↔ ((20 ≤ 500) × IsFresh at_500 quoted))
    × ((query_price sample_deps (text "oracle") (text "terra") (text "uusd") (some at_500)
          ≡ err too_old)
        ↔ ((20 ≤ 500) × ¬ IsFresh at_500 quoted))
    × ((query_price sample_deps (text "oracle") (text "terra") (text "uusd") (some at_500) ≡ panic)
        ↔ (500 < 20))
unfolding query_price
query_price_checks_age_example =
    query_price_checks_age sample_deps (text "oracle") (text "terra") (text "uusd") at_500 quoted
      refl
