-- ===== src/Contract/Frame.antt =====
-- What the calls of `execute` leave as it was, whatever they end in.
use anchor_staking_relayer.Prelude.{ℕ, ◌≡◌, if◌then◌else◌, not, Option, arith}
use anchor_staking_relayer.Bytes.{Text, bytes_eq}
use anchor_staking_relayer.Outcome.{ok, err}
use anchor_staking_relayer.BigNumber.{BigNumber}
use anchor_staking_relayer.Platform.{Env, MessageInfo, Cw20ReceiveMsg}
use anchor_staking_relayer.Deps.{Deps}
use anchor_staking_relayer.Market.{
  ExecuteMsg, receive, register_contracts, update_config, repay_stable_from_liquidation,
  execute_epoch_operations, borrow_stable, repay_stable, claim_rewards,
}
use anchor_staking_relayer.Common.{optional_addr_validate}
use anchor_staking_relayer.MarketState.{State, Store, Borrow, unauthorized}
use anchor_staking_relayer.Handler.{from_std}
use anchor_staking_relayer.Handler.Keeps.{Keeps, step-Keeps}
use anchor_staking_relayer.Deposit.Frame.{deposit_stable-Keeps, redeem_stable-Keeps}
use anchor_staking_relayer.Contract.{Handlers, HasArm, execute, receive_redeem, receive_cw20}

-- Each of the handlers that no file of the repository defines keeps the view.
pub record KeepsAll {S O : Type 0} (view : S → O) (h : Handlers S) : Type 0 where
  pub register_contracts : (a b c e f : Text) → Keeps view (h.register_contracts a b c e f)
  pub update_config :
      (env : Env) (info : MessageInfo) (a b c : Option Text) (f : Option ℕ)
      → Keeps view (h.update_config env info a b c f)
  pub execute_epoch_operations :
      (env : Env) (info : MessageInfo) (a b c e : ℕ)
      → Keeps view (h.execute_epoch_operations env info a b c e)
  pub repay_stable : (env : Env) (info : MessageInfo) → Keeps view (h.repay_stable env info)
  pub repay_stable_from_liquidation :
      (env : Env) (info : MessageInfo) (a : Text) (b : ℕ)
      → Keeps view (h.repay_stable_from_liquidation env info a b)

module _ {S O : Type 0} (view : S → O) (n : BigNumber) (d : Deps) (store : Store S)
    (borrow : Borrow S)
    (stored : (st : State) (s s' : S) → store.store_state st s ≡ ok s' → view s' ≡ view s) where
  receive_redeem-Keeps :
      (env : Env) (info : MessageInfo) (msg : Cw20ReceiveMsg)
      → Keeps view (receive_redeem n d store borrow env info msg)
  unfolding receive_redeem
  receive_redeem-Keeps env info msg s =
      step-Keeps view s (from_std (store.read_config s)) _ (λ config.
        step-Keeps view s (from_std (d.api.addr_canonicalize info.sender)) _ (λ sender.
          step-Keeps view s
            (if not (bytes_eq sender config.aterra_contract) then err unauthorized else ok tt) _
            (λ u. step-Keeps view s (from_std (d.api.addr_validate msg.sender)) _ (λ cw20_sender.
              redeem_stable-Keeps view n d store borrow stored env cw20_sender msg.amount s))))

  receive_cw20-Keeps :
      (env : Env) (info : MessageInfo) (msg : Cw20ReceiveMsg)
      → Keeps view (receive_cw20 n d store borrow env info msg)
  unfolding receive_cw20
  receive_cw20-Keeps env info msg s = ground (arith, receive_redeem-Keeps env info msg s)

  -- Let a view of the storage, such as the balances of the token, not depend on the state of the
  -- market, and let the handlers that no file defines keep it. Then every call of `execute` keeps it,
  -- whatever the message is, of those that have an arm, and whatever the call ends in, a response,
  -- an error or a panic.
  pub execute-Keeps :
      (h : Handlers S) (handlers : KeepsAll view h) (env : Env) (info : MessageInfo)
      (m : ExecuteMsg) (arm : HasArm m)
      → Keeps view (execute n d store borrow h env info m arm)
  unfolding execute
  execute-Keeps h handlers env info (receive msg) arm s = receive_cw20-Keeps env info msg s
  execute-Keeps h handlers env info (register_contracts m) arm s =
      step-Keeps view s (from_std (d.api.addr_validate m.overseer_contract)) _ (λ a.
        step-Keeps view s (from_std (d.api.addr_validate m.interest_model)) _ (λ b.
          step-Keeps view s (from_std (d.api.addr_validate m.distribution_model)) _ (λ c.
            step-Keeps view s (from_std (d.api.addr_validate m.collector_contract)) _ (λ e.
              step-Keeps view s (from_std (d.api.addr_validate m.distributor_contract)) _
                (λ f. handlers.register_contracts a b c e f s)))))
  execute-Keeps h handlers env info (update_config m) arm s =
      step-Keeps view s (from_std (optional_addr_validate d.api m.owner_addr)) _ (λ a.
        step-Keeps view s (from_std (optional_addr_validate d.api m.interest_model)) _ (λ b.
          step-Keeps view s (from_std (optional_addr_validate d.api m.distribution_model)) _
            (λ c. handlers.update_config env info a b c m.max_borrow_factor s)))
  execute-Keeps h handlers env info (execute_epoch_operations m) arm s =
      handlers.execute_epoch_operations env info m.deposit_rate m.target_deposit_rate
        m.threshold_deposit_rate m.distributed_interest s
  execute-Keeps h handlers env info ExecuteMsg.deposit_stable arm s =
      deposit_stable-Keeps view n d store borrow stored env info s
  execute-Keeps h handlers env info repay_stable arm s = handlers.repay_stable env info s
  execute-Keeps h handlers env info (repay_stable_from_liquidation borrower prev_balance) arm s =
      step-Keeps view s (from_std (d.api.addr_validate borrower)) _
        (λ a. handlers.repay_stable_from_liquidation env info a prev_balance s)
  execute-Keeps h handlers env info (borrow_stable borrow_amount to) arm s = absurd arm
  execute-Keeps h handlers env info (claim_rewards to) arm s = absurd arm
