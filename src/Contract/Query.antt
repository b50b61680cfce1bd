-- ===== src/Contract/Query.antt =====
-- src/contract.rs: `query`, over the messages of src/msg.rs.
pub mod Laws
use anchor_staking_relayer.Outcome.{ok, ◌>>=◌}
use anchor_staking_relayer.Platform.{StdResult, Binary, Codec, Api}
use anchor_staking_relayer.TokenMsg.{QueryMsg, balance, config, BalanceResponse, ConfigResponse}
use anchor_staking_relayer.TokenState.{Storage, config_get, balance_get}

module _ {S : Type 0} (api : Api) (storage : Storage S) (balance_response : Codec BalanceResponse)
    (config_response : Codec ConfigResponse) where
  unfoldable pub query : QueryMsg → S → StdResult Binary
  query (balance address) s = do
    canonical ← api.canonical_address address
    amount ← balance_get storage canonical s
    balance_response.to_binary (record { balance = amount })
  query config s = do
    found ← config_get storage s
    owner ← api.human_address found.owner
    config_response.to_binary (record { name = found.name; symbol = found.symbol; owner = owner })
