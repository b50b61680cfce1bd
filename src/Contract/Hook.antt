-- ===== src/Contract/Hook.antt =====
-- What a redemption hook that `receive_cw20` accepted has gone through.
use anchor_staking_relayer.Prelude.{◌≡◌, refl, not, arith}
use anchor_staking_relayer.Bytes.{Text, bytes_eq}
use anchor_staking_relayer.Outcome.{ok, err, panic}
use anchor_staking_relayer.BigNumber.{BigNumber}
use anchor_staking_relayer.Platform.{StdResult, Response, Env, MessageInfo, Cw20ReceiveMsg}
use anchor_staking_relayer.Deps.{Deps}
use anchor_staking_relayer.Market.{Cw20HookMsg}
use anchor_staking_relayer.MarketState.{Config, Store, Borrow, unauthorized}
use anchor_staking_relayer.Deposit.{redeem_stable}
use anchor_staking_relayer.Handler.Inversion.{lift_inv, known_inv, raise_inv}
use anchor_staking_relayer.Contract.{receive_redeem, receive_cw20}

module _ {S : Type 0} (n : BigNumber) (d : Deps) (store : Store S) (borrow : Borrow S) (env : Env)
    (info : MessageInfo) (msg : Cw20ReceiveMsg) (config : Config) (s : S)
    (configured : store.read_config s ≡ ok config) (resp : Response) (s' : S) where
  receive_redeem_inv :
      receive_redeem n d store borrow env info msg s ≡ (ok resp, s')
      → (sender : Text) × (d.api.addr_validate msg.sender ≡ ok sender)
        × (redeem_stable n d store borrow env sender msg.amount s ≡ (ok resp, s'))
  unfolding receive_redeem
  receive_redeem_inv done =
      let d0 = known_inv s s' (store.read_config s) config _ configured done in
      let (raw, e1, d1) = lift_inv s s' (d.api.addr_canonicalize info.sender) _ d0 in
      let (e2, d2) = raise_inv s s' (not (bytes_eq raw config.aterra_contract)) unauthorized _ d1 in
      let (sender, e3, d3) = lift_inv s s' (d.api.addr_validate msg.sender) _ d2 in (sender, e3, d3)

  pub receive_cw20_inv :
      receive_cw20 n d store borrow env info msg s ≡ (ok resp, s')
      → (sender : Text) × (d.api.addr_validate msg.sender ≡ ok sender)
        × (redeem_stable n d store borrow env sender msg.amount s ≡ (ok resp, s'))
  unfolding receive_cw20
  receive_cw20_inv done = receive_redeem_inv (hook_inv (d.cw20_hook_msg.from_binary msg.msg) refl)
    where
      hook_inv :
          (r : StdResult Cw20HookMsg)
          → d.cw20_hook_msg.from_binary msg.msg ≡ r
          → receive_redeem n d store borrow env info msg s ≡ (ok resp, s')
      hook_inv (ok hook) e = ground (arith, e, done)
      hook_inv (err x) e = absurd (ground (arith, e, done))
      hook_inv panic e = absurd (ground (arith, e, done))
