-- ===== src/Contract/Init.antt =====
-- src/contract.rs: `init`. Its message has the fields of two types, `InitMsg` of the token and
-- `InstantiateMsg` of the market, and it writes the configuration of both.
pub mod Balances
pub mod Laws
pub mod Success
pub mod Sample
mod Tests
use anchor_staking_relayer.Prelude.{
  ℕ, ◌-◌, Option, none, some, List, [], ◌∷◌, ◌++◌, map, Bool, leb, ltb, ◌&&◌, ◌||◌, if◌then◌else◌,
}
use anchor_staking_relayer.Bytes.{Bytes, Text, text}
use anchor_staking_relayer.Outcome.{ok, or_panic}
use anchor_staking_relayer.BigNumber.{decimal_one}
use anchor_staking_relayer.Platform.{Api, Codec, Env, Response, SubMsg, TokenInstantiateMsg}
use anchor_staking_relayer.TokenMsg.{InitialBalance, InitMsg}
use anchor_staking_relayer.TokenState
use anchor_staking_relayer.TokenState.{Storage, config_set, balance_set}
use anchor_staking_relayer.Market.{InstantiateMsg}
use anchor_staking_relayer.MarketState.{Config, State, Store}
use anchor_staking_relayer.Handler.{Handler, pure, lift, ◌>>=◌, ◌>>◌, writes}

-- `to_uppercase` of an ASCII text.
unfoldable pub to_uppercase : Text → Text
to_uppercase = map (λ c. if leb b'a' c && leb c b'z' then c - 32 else c)

-- A character of a text does not begin at a continuation byte, 10xxxxxx.
unfoldable pub is_char_boundary : ℕ → Bool
is_char_boundary b = ltb b 128 || leb 192 b

-- `s[1..]`: it panics on an empty text, and where a character goes on at the second byte.
unfoldable pub skip_first : Text → Option Text
unfolding is_char_boundary
skip_first [] = none
skip_first (b ∷ []) = some []
skip_first (b ∷ c ∷ bs) = if is_char_boundary c then some (c ∷ bs) else none

-- A text without its last byte, where a character begins at it.
drop_last : Text → Option Text
unfolding is_char_boundary
drop_last [] = none
drop_last (b ∷ []) = if is_char_boundary b then some [] else none
drop_last (b ∷ c ∷ bs) = elim (drop_last (c ∷ bs)) [ none ↦ none | some kept ↦ some (b ∷ kept) ]

-- `s[1..(s.len() - 1)]`: it panics on a text of less than two bytes, and where a character goes on
-- at the second byte or at the last.
unfoldable pub inner : Text → Option Text
unfolding drop_last is_char_boundary
inner [] = none
inner (b ∷ []) = none
inner (b ∷ c ∷ bs) = if is_char_boundary c then drop_last (c ∷ bs) else none

-- The name and the symbol of the aTerra token of a denomination.
unfoldable pub aterra_name : Text → Option Text
unfolding to_uppercase skip_first
aterra_name stable_denom = elim (skip_first stable_denom) [
  | none ↦ none
  | some rest ↦ some (text "Anchor Terra " ++ to_uppercase rest)
]

unfoldable pub aterra_symbol : Text → Option Text
unfolding to_uppercase inner
aterra_symbol stable_denom = elim (inner stable_denom) [
  | none ↦ none
  | some middle ↦ some (text "a" ++ (to_uppercase middle ++ text "T"))
]

-- The state that the market begins with.
abbrev pub initial_state : ℕ → ℕ → State
initial_state block_height anc_emission_rate = record {
  total_liabilities = 0;
  total_reserves = 0;
  last_interest_updated = block_height;
  last_reward_updated = block_height;
  global_interest_index = decimal_one;
  global_reward_index = 0;
  anc_emission_rate = anc_emission_rate;
  prev_aterra_supply = 0;
  prev_exchange_rate = decimal_one;
}

abbrev pub initial_config : Bytes → Bytes → Text → ℕ → Config
initial_config contract_addr owner_addr stable_denom max_borrow_factor = record {
  contract_addr = contract_addr;
  owner_addr = owner_addr;
  aterra_contract = [];
  overseer_contract = [];
  interest_model = [];
  distribution_model = [];
  collector_contract = [];
  distributor_contract = [];
  stable_denom = stable_denom;
  max_borrow_factor = max_borrow_factor;
}

-- The aTerra token: its minter and the holder of its first tokens is the contract.
abbrev pub aterra_token : Text → ℕ → Text → Text → TokenInstantiateMsg
aterra_token contract_address initial_deposit_amount name symbol = record {
  name = name;
  symbol = symbol;
  decimals = 6;
  initial_balances = (contract_address, initial_deposit_amount) ∷ [];
  minter = contract_address;
}

module _ {S : Type 0} (api : Api) (storage : Storage S) where
  -- The loop over `initial_balances`.
  unfoldable pub set_balances : List InitialBalance → Handler S (Unit {0})
  set_balances [] = pure tt
  set_balances (row ∷ rows) = do
    address ← lift (api.canonical_address row.address)
    writes (balance_set storage address row.amount)
    set_balances rows

module _ {S : Type 0} (api : Api) (storage : Storage S) (store : Store S)
    (token_msg : Codec TokenInstantiateMsg) (initial_deposit_amount : ℕ) where
  -- The message that instantiates the aTerra token.
  unfoldable pub instantiate_aterra : Env → InstantiateMsg → Handler S Response
  unfolding aterra_name aterra_symbol
  instantiate_aterra env market_msg = do
    name ← lift (or_panic (aterra_name market_msg.stable_denom))
    symbol ← lift (or_panic (aterra_symbol market_msg.stable_denom))
    aterra ←
        lift (
          token_msg.to_binary
            (aterra_token env.contract_address initial_deposit_amount name symbol))
    pure (record {
      submessages =
          record { code_id = market_msg.aterra_code_id; label = []; msg = aterra; reply_id = 1 }
          ∷ [];
      messages = [];
      attributes = [];
    })

  -- The config and the state of the market, and the response.
  unfoldable pub begin_market : Bytes → Bytes → Env → InstantiateMsg → Handler S Response
  unfolding instantiate_aterra
  begin_market contract_addr owner_addr env market_msg =
      writes (
        store.store_config (
          initial_config contract_addr owner_addr market_msg.stable_denom
            market_msg.max_borrow_factor))
      >> (writes (store.store_state (initial_state env.block_height market_msg.anc_emission_rate))
          >> instantiate_aterra env market_msg)

  unfoldable pub set_up_market : Env → InstantiateMsg → Handler S Response
  unfolding begin_market
  set_up_market env market_msg = do
    contract_addr ← lift (api.addr_canonicalize env.contract_address)
    owner_addr ← lift (api.addr_canonicalize market_msg.owner_addr)
    begin_market contract_addr owner_addr env market_msg

  -- What follows the loop.
  unfoldable pub set_up : Env → Bytes → InitMsg → InstantiateMsg → Handler S Response
  unfolding set_up_market
  set_up env message_sender msg market_msg =
      writes (
        config_set storage
          (record { name = msg.name; symbol = msg.symbol; owner = message_sender }))
      >> set_up_market env market_msg

  -- `env.message.sender` is the second argument.
  unfoldable pub init : Env → Bytes → InitMsg → InstantiateMsg → Handler S Response
  unfolding set_balances set_up
  init env message_sender msg market_msg =
      set_balances api storage msg.initial_balances >> set_up env message_sender msg market_msg
