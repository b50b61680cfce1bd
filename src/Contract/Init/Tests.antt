-- ===== src/Contract/Init/Tests.antt =====
-- The theorems on `init` and on the queries after it, at a contract with three initial balances.
use anchor_staking_relayer.Prelude.{◌≡◌, refl, none, [], ◌∷◌, arith}
use anchor_staking_relayer.Bytes.{text, bytes_eq}
use anchor_staking_relayer.Outcome.{ok, panic}
use anchor_staking_relayer.Platform.{Response}
use anchor_staking_relayer.Deps.Sample.{sample_api}
use anchor_staking_relayer.TokenMsg.{balance, config}
use anchor_staking_relayer.TokenState
use anchor_staking_relayer.TokenState.{config_set, config_get, balance_set, balance_get}
use anchor_staking_relayer.TokenState.Sample.{sample_token_storage, sample_token_storage-IsStorage}
use anchor_staking_relayer.MarketState.Sample.{Storage, sample_storage, sample_env}
use anchor_staking_relayer.Contract.Init.{
  to_uppercase, is_char_boundary, skip_first, inner, drop_last, aterra_name, aterra_symbol,
  initial_state, initial_config, set_balances, instantiate_aterra, begin_market, set_up_market,
  set_up, init,
}
use anchor_staking_relayer.Contract.Init.Laws.{init_short_denom}
use anchor_staking_relayer.Contract.Query.{query}
use anchor_staking_relayer.Contract.Query.Laws.{query-init, query-config_set}
use anchor_staking_relayer.Contract.Init.Sample.{
  Items, market_store, market_store-IsApart, token_codec, balance_codec, balance_codec-RoundTrips,
  config_codec, config_codec-RoundTrips, begun, market_of, nothing,
}

-- The market that `init` leaves.
abbrev market_begun : Storage
market_begun = (
  initial_config (text "market") (text "owner") (text "uusd") 900_000_000_000_000_000,
  initial_state 7 3,
)

abbrev begun_items : Items
begun_items = (
  (
    (text "config", record { name = text "Relayer"; symbol = text "RLY"; owner = text "carol" })
        ∷ [],
    (text "balance", text "alice", 250)
        ∷ (text "balance", text "bob", 7)
        ∷ (text "balance", text "alice", 100)
        ∷ [],
  ),
  market_begun,
)

abbrev aterra_begun : Response
aterra_begun = record {
  submessages =
      record { code_id = 11; label = []; msg = text "Anchor Terra USDaUST"; reply_id = 1 } ∷ [];
  messages = [];
  attributes = [];
}

init_run :
    init sample_api sample_token_storage market_store token_codec 1_000_000 sample_env
      (text "carol")
      begun
      (market_of (text "uusd"))
      nothing
    ≡ (ok aterra_begun, begun_items)
unfolding init set_balances set_up set_up_market begin_market instantiate_aterra aterra_name
    aterra_symbol inner drop_last skip_first is_char_boundary to_uppercase config_set balance_set
init_run = refl

query-init_example :
    (query sample_api sample_token_storage balance_codec config_codec
        (balance (text "alice"))
        begun_items
      ≡ ok (250 ∷ []))
    × (balance_codec.from_binary (250 ∷ []) ≡ ok (record { balance = 250 }))
unfolding balance_get bytes_eq
query-init_example =
    query-init sample_api sample_token_storage sample_token_storage-IsStorage balance_codec
      config_codec nothing begun_items (250 ∷ []) market_store token_codec 1_000_000 sample_env
      (text "carol") begun (market_of (text "uusd")) aterra_begun (text "alice") (text "alice") 250
      market_store-IsApart balance_codec-RoundTrips init_run refl refl refl

abbrev relayer_config : TokenState.Config
relayer_config = record { name = text "Relayer"; symbol = text "RLY"; owner = text "carol" }

abbrev config_items : Items
config_items = (((text "config", relayer_config) ∷ [], []), sample_storage)

query-config_set_example :
    (query sample_api sample_token_storage balance_codec config_codec config config_items
      ≡ ok (7 ∷ 3 ∷ text "RelayerRLYcarol"))
    × (config_codec.from_binary (7 ∷ 3 ∷ text "RelayerRLYcarol")
        ≡ ok (record { name = text "Relayer"; symbol = text "RLY"; owner = text "carol" }))
unfolding config_set
query-config_set_example =
    query-config_set sample_api sample_token_storage sample_token_storage-IsStorage balance_codec
      config_codec nothing config_items (7 ∷ 3 ∷ text "RelayerRLYcarol") relayer_config
      (text "carol") config_codec-RoundTrips refl refl refl

abbrev balances_set : Items
balances_set = (
  (
    [],
    (text "balance", text "alice", 250)
        ∷ (text "balance", text "bob", 7)
        ∷ (text "balance", text "alice", 100)
        ∷ [],
  ),
  sample_storage,
)

abbrev config_kept : Items
config_kept = (((text "config", relayer_config) ∷ [], balances_set.0.1), sample_storage)

-- The denomination é, of the two bytes 195 and 169 of one character, has no name: its slice would
-- begin within the character.
split_character : aterra_name (195 ∷ 169 ∷ []) ≡ none
unfolding aterra_name skip_first is_char_boundary
split_character = refl

init_short_denom_example :
    (init sample_api sample_token_storage market_store token_codec 1_000_000 sample_env
      (text "carol")
      begun
      (market_of (text "u"))
      nothing).0
    ≡ panic
unfolding set_balances config_set balance_set
init_short_denom_example =
    init_short_denom sample_api sample_token_storage market_store token_codec 1_000_000 sample_env
      (text "carol") begun (market_of (text "u")) nothing balances_set config_kept
      (
        config_kept.0,
        (
          initial_config (text "market") (text "owner") (text "u") 900_000_000_000_000_000,
          sample_storage.1,
        ),
      )
      (
        config_kept.0,
        (
          initial_config (text "market") (text "owner") (text "u") 900_000_000_000_000_000,
          initial_state 7 3,
        ),
      )
      (text "market") (text "owner") refl refl refl refl refl refl (ground arith)
