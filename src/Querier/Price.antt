-- ===== src/Querier/Price.antt =====
-- The check of the age of a price in `query_price`.
use anchor_staking_relayer.Prelude.{◌+◌, ◌≤◌, ◌<◌, ◌≡◌, ◌↔◌, none, some, arith}
use anchor_staking_relayer.Bytes.{Text}
use anchor_staking_relayer.Outcome.{ok, err, panic}
use anchor_staking_relayer.Oracle.{PriceResponse}
use anchor_staking_relayer.Deps.{Deps}
use anchor_staking_relayer.Querier.{TimeConstraints, check_time, query_price, too_old}

-- Both times of the price lie in the timeframe before the block.
abbrev pub IsFresh : TimeConstraints → PriceResponse → Type 0
IsFresh c p =
    (c.block_time ≤ p.last_updated_base + c.valid_timeframe)
    × (c.block_time ≤ p.last_updated_quote + c.valid_timeframe)

module _ (c : TimeConstraints) (p : PriceResponse) where
  accepted : check_time c p ≡ ok p → (c.valid_timeframe ≤ c.block_time) × IsFresh c p
  unfolding check_time
  accepted h = ground arith

  accepts : (c.valid_timeframe ≤ c.block_time) × IsFresh c p → check_time c p ≡ ok p
  unfolding check_time
  accepts h = ground arith

  refused : check_time c p ≡ err too_old → (c.valid_timeframe ≤ c.block_time) × ¬ IsFresh c p
  unfolding check_time
  refused h = (ground arith, λ f. ground arith)

  refuses : (c.valid_timeframe ≤ c.block_time) × ¬ IsFresh c p → check_time c p ≡ err too_old
  unfolding check_time
  refuses (h, stale) = ground arith

  panicked : check_time c p ≡ panic → c.block_time < c.valid_timeframe
  unfolding check_time
  panicked h = ground arith

  panics : c.block_time < c.valid_timeframe → check_time c p ≡ panic
  unfolding check_time
  panics h = ground arith

module _ (d : Deps) (oracle_addr base quote : Text) (c : TimeConstraints) (p : PriceResponse)
    (known : query_price d oracle_addr base quote none ≡ ok p) where
  checked : query_price d oracle_addr base quote (some c) ≡ check_time c p
  unfolding query_price
  checked = ground (arith, known)

  -- Where the oracle gives a price, `query_price` with time constraints returns it exactly if the
  -- block is not younger than the timeframe and both times of the price lie in the timeframe; it
  -- returns the error "Price is too old" exactly if the block is not younger and they do not; and it
  -- panics exactly if the block is younger, since the subtraction from its time is checked.
  pub query_price_checks_age :
      ((query_price d oracle_addr base quote (some c) ≡ ok p)
        ↔ ((c.valid_timeframe ≤ c.block_time) × IsFresh c p))
      × ((query_price d oracle_addr base quote (some c) ≡ err too_old)
          ↔ ((c.valid_timeframe ≤ c.block_time) × ¬ IsFresh c p))
      × ((query_price d oracle_addr base quote (some c) ≡ panic)
          ↔ (c.block_time < c.valid_timeframe))
  query_price_checks_age =
      rw checked
        ((accepted c p, accepts c p), (refused c p, refuses c p), (panicked c p, panics c p))
