-- ===== src/Deposit/Rate.antt =====
-- src/deposit.rs: the exchange rate between the stable coin and aTerra, and the check of a
-- redemption against what the contract holds.
pub mod Laws
pub mod Vault
mod Tests
use anchor_staking_relayer.Prelude.{ℕ, Option, none, some, ltb, ◌==◌, if◌then◌else◌}
use anchor_staking_relayer.Outcome.{Outcome, ok, err, ◌>>=◌, or_panic}
use anchor_staking_relayer.BigNumber.{BigNumber, decimal_one}
use anchor_staking_relayer.Platform.{StdResult}
use anchor_staking_relayer.Deps.{Deps}
use anchor_staking_relayer.MarketState.{Config, State, ContractError, no_stable_available}
use anchor_staking_relayer.Querier.{query_balance, query_supply}

-- (balance + total_liabilities - total_reserves) / aterra_supply, and one without any aTerra.
unfoldable pub compute_exchange_rate_raw : BigNumber → State → ℕ → ℕ → StdResult ℕ
compute_exchange_rate_raw n state aterra_supply contract_balance =
    if aterra_supply == 0 then ok decimal_one else do
      balance ← or_panic (n.from_uint256 contract_balance)
      assets ← or_panic (n.decimal_add balance state.total_liabilities)
      worth ← or_panic (n.decimal_sub assets state.total_reserves)
      supply ← or_panic (n.from_uint256 aterra_supply)
      or_panic (n.decimal_div worth supply)

-- `unwrap_or_else(Uint256::zero)`
abbrev pub or_nothing : Option ℕ → ℕ
or_nothing none = 0
or_nothing (some a) = a

unfoldable pub compute_exchange_rate : BigNumber → Deps → Config → State → Option ℕ → StdResult ℕ
compute_exchange_rate n d config state deposit_amount = do
  aterra_contract ← d.api.addr_humanize config.aterra_contract
  aterra_supply ← query_supply d aterra_contract
  contract_addr ← d.api.addr_humanize config.contract_addr
  held ← query_balance d contract_addr config.stable_denom
  balance ← or_panic (n.sub held (or_nothing deposit_amount))
  compute_exchange_rate_raw n state aterra_supply balance

unfoldable pub assert_redeem_amount :
    BigNumber → Config → State → ℕ → ℕ → Outcome ContractError (Unit {0})
assert_redeem_amount n config state current_balance redeem_amount = do
  current ← or_panic (n.from_uint256 current_balance)
  redeemed ← or_panic (n.from_uint256 redeem_amount)
  needed ← or_panic (n.decimal_add redeemed state.total_reserves)
  if ltb current needed then err (no_stable_available config.stable_denom) else ok tt
