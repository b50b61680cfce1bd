-- ===== src/Contract.antt =====
-- src/contract.rs: the entry points `execute` and `receive_cw20`. The handlers that `execute` calls
-- and that no file of the repository defines are fields of `Handlers`.
pub mod Access
pub mod Addresses
pub mod Frame
pub mod Hook
pub mod Init
pub mod Query
pub mod Sample
mod Tests
use anchor_staking_relayer.Prelude.{ℕ, Option, not}
use anchor_staking_relayer.Bytes.{Text, bytes_eq}
use anchor_staking_relayer.Outcome.{ok, err, panic}
use anchor_staking_relayer.BigNumber.{BigNumber}
use anchor_staking_relayer.Platform.{Response, Env, MessageInfo, Cw20ReceiveMsg}
use anchor_staking_relayer.Deps.{Deps}
use anchor_staking_relayer.Common.{optional_addr_validate}
use anchor_staking_relayer.Market.{
  ExecuteMsg, receive, register_contracts, update_config, repay_stable_from_liquidation,
  execute_epoch_operations, borrow_stable, repay_stable, claim_rewards,
}
use anchor_staking_relayer.Market
use anchor_staking_relayer.MarketState.{Store, Borrow, unauthorized, missing_redeem_stable_hook}
use anchor_staking_relayer.Deposit.{deposit_stable, redeem_stable}
use anchor_staking_relayer.Handler.{Handler, fail, lift, reads, ◌>>=◌, ◌>>◌, raise_if}

pub record Handlers (S : Type 0) : Type 0 where
  pub register_contracts : Text → Text → Text → Text → Text → Handler S Response
  pub update_config :
      Env → MessageInfo → Option Text → Option Text → Option Text → Option ℕ → Handler S Response
  pub execute_epoch_operations : Env → MessageInfo → ℕ → ℕ → ℕ → ℕ → Handler S Response
  pub repay_stable : Env → MessageInfo → Handler S Response
  pub repay_stable_from_liquidation : Env → MessageInfo → Text → ℕ → Handler S Response

-- The messages that the `match` of `execute` has an arm for. Without an arm for the other two the
-- source does not compile, so that they have no run.
abbrev pub HasArm : ExecuteMsg → Type 0
HasArm (borrow_stable borrow_amount to) = ⊥
HasArm (claim_rewards to) = ⊥
HasArm m = Unit

module _ {S : Type 0} (n : BigNumber) (d : Deps) (store : Store S) (borrow : Borrow S) where
  -- The arm of `receive_cw20` for `RedeemStable`, with the check that aTerra has sent it.
  unfoldable pub receive_redeem : Env → MessageInfo → Cw20ReceiveMsg → Handler S Response
  receive_redeem env info cw20_msg = do
    config ← reads store.read_config
    sender ← lift (d.api.addr_canonicalize info.sender)
    raise_if (not (bytes_eq sender config.aterra_contract)) unauthorized
    cw20_sender_addr ← lift (d.api.addr_validate cw20_msg.sender)
    redeem_stable n d store borrow env cw20_sender_addr cw20_msg.amount

  unfoldable pub receive_cw20 : Env → MessageInfo → Cw20ReceiveMsg → Handler S Response
  unfolding receive_redeem
  receive_cw20 env info cw20_msg = elim (d.cw20_hook_msg.from_binary cw20_msg.msg) [
    | ok hook ↦ receive_redeem env info cw20_msg
    | err e ↦ fail missing_redeem_stable_hook
    | panic ↦ lift panic
  ]

  unfoldable pub execute :
      Handlers S → Env → MessageInfo → (m : ExecuteMsg) → HasArm m → Handler S Response
  unfolding receive_cw20
  execute h env info (receive msg) arm = receive_cw20 env info msg
  execute h env info (register_contracts m) arm = do
    overseer_contract ← lift (d.api.addr_validate m.overseer_contract)
    interest_model ← lift (d.api.addr_validate m.interest_model)
    distribution_model ← lift (d.api.addr_validate m.distribution_model)
    collector_contract ← lift (d.api.addr_validate m.collector_contract)
    distributor_contract ← lift (d.api.addr_validate m.distributor_contract)
    h.register_contracts overseer_contract interest_model distribution_model collector_contract
        distributor_contract
  execute h env info (update_config m) arm = do
    owner_addr ← lift (optional_addr_validate d.api m.owner_addr)
    interest_model ← lift (optional_addr_validate d.api m.interest_model)
    distribution_model ← lift (optional_addr_validate d.api m.distribution_model)
    h.update_config env info owner_addr interest_model distribution_model m.max_borrow_factor
  execute h env info (execute_epoch_operations m) arm =
      h.execute_epoch_operations env info m.deposit_rate m.target_deposit_rate
        m.threshold_deposit_rate m.distributed_interest
  execute h env info ExecuteMsg.deposit_stable arm = deposit_stable n d store borrow env info
  execute h env info repay_stable arm = h.repay_stable env info
  execute h env info (repay_stable_from_liquidation borrower prev_balance) arm = do
    borrower_addr ← lift (d.api.addr_validate borrower)
    h.repay_stable_from_liquidation env info borrower_addr prev_balance
  execute h env info (borrow_stable borrow_amount to) arm = absurd arm
  execute h env info (claim_rewards to) arm = absurd arm
