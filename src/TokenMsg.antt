-- ===== src/TokenMsg.antt =====
-- src/msg.rs: the messages of the token.
use anchor_staking_relayer.Prelude.{ℕ, List}
use anchor_staking_relayer.Bytes.{Text}

pub record InitialBalance : Type 0 where
  pub address : Text
  pub amount : ℕ

pub record InitMsg : Type 0 where
  pub name : Text
  pub symbol : Text
  pub initial_balances : List InitialBalance

pub data HandleMsg : Type 0 where
  -- recipient and amount
  transfer : Text → ℕ → HandleMsg
  burn : ℕ → HandleMsg

pub data QueryMsg : Type 0 where
  balance : Text → QueryMsg
  config : QueryMsg

pub record BalanceResponse : Type 0 where
  pub balance : ℕ

pub record ConfigResponse : Type 0 where
  pub name : Text
  pub symbol : Text
  pub owner : Text
