-- ===== src/Contract/Access.antt =====
-- Who may send a redemption to `receive_cw20`.
use anchor_staking_relayer.Prelude.{◌≡◌, refl, arith}
use anchor_staking_relayer.Bytes.{Bytes}
use anchor_staking_relayer.Bytes.Order.{bytes_eq→eq}
use anchor_staking_relayer.Outcome.{ok, err, panic}
use anchor_staking_relayer.BigNumber.{BigNumber}
use anchor_staking_relayer.Platform.{StdResult, Response, Env, MessageInfo, Cw20ReceiveMsg}
use anchor_staking_relayer.Deps.{Deps}
use anchor_staking_relayer.MarketState.{Config, Store, Borrow}
use anchor_staking_relayer.Contract.{receive_redeem, receive_cw20}

module _ {S : Type 0} (n : BigNumber) (d : Deps) (store : Store S) (borrow : Borrow S) (env : Env)
    (info : MessageInfo) (msg : Cw20ReceiveMsg) (config : Config) (s : S)
    (configured : store.read_config s ≡ ok config) where
  receive_redeem_sender :
      (sender : StdResult Bytes) {resp : Response}
      → d.api.addr_canonicalize info.sender ≡ sender
      → (receive_redeem n d store borrow env info msg s).0 ≡ ok resp
      → sender ≡ ok config.aterra_contract
  unfolding receive_redeem
  receive_redeem_sender (ok c) e done = ground (arith, bytes_eq→eq c config.aterra_contract)
  receive_redeem_sender (err x) e done = ground arith
  receive_redeem_sender panic e done = ground arith

  -- A hook that ended well ran the arm for the redemption.
  redeemed_by :
      {resp : Response}
      → (receive_cw20 n d store borrow env info msg s).0 ≡ ok resp
      → (receive_redeem n d store borrow env info msg s).0 ≡ ok resp
  unfolding receive_cw20
  redeemed_by done = ground arith

  -- A `receive_cw20` that succeeds was sent by the aTerra contract of the config.
  pub receive_cw20_only_aterra :
      {resp : Response}
      → (receive_cw20 n d store borrow env info msg s).0 ≡ ok resp
      → d.api.addr_canonicalize info.sender ≡ ok config.aterra_contract
  receive_cw20_only_aterra done = receive_redeem_sender _ refl (redeemed_by done)
