-- ===== src/Contract/Sample.antt =====
-- Handlers for the tests, in place of those that no file of the repository defines.
use anchor_staking_relayer.MarketState.{unauthorized}
use anchor_staking_relayer.MarketState.Sample.{Storage}
use anchor_staking_relayer.Handler.{fail}
use anchor_staking_relayer.Contract.{Handlers}

-- Handlers that refuse everything.
abbrev pub refusing : Handlers Storage
refusing = record {
  register_contracts = λ a b c d e. fail unauthorized;
  update_config = λ env info a b c d. fail unauthorized;
  execute_epoch_operations = λ env info a b c d. fail unauthorized;
  repay_stable = λ env info. fail unauthorized;
  repay_stable_from_liquidation = λ env info a b. fail unauthorized;
}
