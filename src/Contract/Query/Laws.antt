-- ===== src/Contract/Query/Laws.antt =====
-- `query`: what it reports of the balances that `init` sets, and of the configuration.
use anchor_staking_relayer.Prelude.{ℕ, ◌≡◌, arith}
use anchor_staking_relayer.Bytes.{Bytes, Text}
use anchor_staking_relayer.Outcome.{ok}
use anchor_staking_relayer.Platform.{
  Binary, Codec, Api, RoundTrips, Env, Response, TokenInstantiateMsg,
}
use anchor_staking_relayer.TokenMsg.{InitMsg, balance, config, BalanceResponse, ConfigResponse}
use anchor_staking_relayer.TokenState
use anchor_staking_relayer.TokenState.{Storage, IsStorage, config_set, balance_get}
use anchor_staking_relayer.TokenState.Laws.{config_get-config_set}
use anchor_staking_relayer.Market.{InstantiateMsg}
use anchor_staking_relayer.MarketState.{Store}
use anchor_staking_relayer.Contract.Init.{init}
use anchor_staking_relayer.Contract.Init.Balances.{listed, IsApart, balance_get-init}
use anchor_staking_relayer.Contract.Query.{query}

module _ {S : Type 0} (api : Api) (storage : Storage S) (laws : IsStorage storage)
    (balance_response : Codec BalanceResponse) (config_response : Codec ConfigResponse) (s s' : S)
    (answer : Binary) where
  -- After an `init` that succeeded a balance query for an address that the platform converts is
  -- answered, and reports the amount of the last row for it among the initial balances, and without
  -- a row what it had before; the items of the market lie outside the balances, and `serde` writes
  -- the report and reads back what it writes.
  pub query-init :
      (store : Store S) (token_msg : Codec TokenInstantiateMsg) (initial_deposit_amount : ℕ)
      (env : Env) (message_sender : Bytes) (msg : InitMsg) (market_msg : InstantiateMsg)
      (resp : Response) (address : Text) (k : Bytes) (amount : ℕ)
      → IsApart storage store
      → RoundTrips balance_response
      → init api storage store token_msg initial_deposit_amount env message_sender msg market_msg s
        ≡ (ok resp, s')
      → api.canonical_address address ≡ ok k
      → listed api k msg.initial_balances (balance_get storage k s) ≡ ok amount
      → balance_response.to_binary (record { balance = amount }) ≡ ok answer
      → (query api storage balance_response config_response (balance address) s' ≡ ok answer)
        × (balance_response.from_binary answer ≡ ok (record { balance = amount }))
  unfolding query
  query-init store token_msg initial_deposit_amount env message_sender msg market_msg resp address k
        amount apart trips done known given encoded =
      (
        ground (
          arith,
          balance_get-init api storage laws store apart token_msg initial_deposit_amount env
              message_sender msg market_msg k s s' resp done,
        ),
        trips.from-to _ answer encoded,
      )

  -- After `config_set` a config query is answered, and reports the name and the symbol that were set,
  -- and the readable address of the owner, if the platform converts it; `serde` writes the report
  -- and reads back what it writes.
  pub query-config_set :
      (c : TokenState.Config) (owner : Text)
      → RoundTrips config_response
      → config_set storage c s ≡ ok s'
      → api.human_address c.owner ≡ ok owner
      → config_response.to_binary (record { name = c.name; symbol = c.symbol; owner = owner })
        ≡ ok answer
      → (query api storage balance_response config_response config s' ≡ ok answer)
        × (config_response.from_binary answer
            ≡ ok (record { name = c.name; symbol = c.symbol; owner = owner }))
  unfolding query
  query-config_set c owner trips saved known encoded = (
    ground (arith, config_get-config_set storage laws s s' c saved),
    trips.from-to _ answer encoded,
  )
