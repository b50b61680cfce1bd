-- ===== src/Contract/Init/Sample.antt =====
-- A contract with three initial balances, and small encodings for its tests.
use anchor_staking_relayer.Prelude.{length, [], ◌∷◌, ◌++◌, arith}
use anchor_staking_relayer.Bytes.{Text, text}
use anchor_staking_relayer.Outcome.{ok, err}
use anchor_staking_relayer.Platform.{Codec, StdResult, RoundTrips, other, TokenInstantiateMsg}
use anchor_staking_relayer.Platform.Sample.{split, split-append}
use anchor_staking_relayer.TokenMsg.{InitMsg, BalanceResponse, ConfigResponse}
use anchor_staking_relayer.TokenState.Sample.{Saved, sample_token_storage}
use anchor_staking_relayer.Market.{InstantiateMsg}
use anchor_staking_relayer.MarketState.{Store, IsStore}
use anchor_staking_relayer.MarketState.Sample.{Storage, sample_storage}
use anchor_staking_relayer.Contract.Init.Balances.{IsApart}

abbrev pub Items : Type 0
Items = Saved Storage

abbrev pub market_store : Store Items
market_store = record {
  read_config = λ s. ok s.1.0;
  read_state = λ s. ok s.1.1;
  store_config = λ c s. ok (s.0, (c, s.1.1));
  store_state = λ st s. ok (s.0, (s.1.0, st));
}

pub market_store-IsStore : IsStore market_store
market_store-IsStore = record {
  read_config-store_config = λ c s s' e. ground arith;
  read_state-store_state = λ st s s' e. ground arith;
  read_config-store_state = λ st s s' e. ground arith;
}

pub market_store-IsApart : IsApart sample_token_storage market_store
market_store-IsApart = record {
  may_load-store_config = λ b k c s s' e. ground arith;
  may_load-store_state = λ b k st s s' e. ground arith;
}

abbrev pub token_codec : Codec TokenInstantiateMsg
token_codec = record {
  to_binary = λ t. ok (t.name ++ t.symbol);
  from_binary = λ b. err (other (text "parse"));
}

abbrev pub balance_codec : Codec BalanceResponse
balance_codec = record {
  to_binary = λ r. ok (r.balance ∷ []);
  from_binary =
      λ b. elim b [ [] ↦ err (other (text "parse")) | a ∷ rest ↦ ok (record { balance = a }) ];
}

pub balance_codec-RoundTrips : RoundTrips balance_codec
balance_codec-RoundTrips = record { from-to = λ a b e. ground arith }

-- The lengths of the name and of the symbol, and the three texts.
abbrev decode_config : Text → StdResult ConfigResponse
decode_config (n ∷ m ∷ rest) =
    let (name, others) = split n rest in
    let (symbol, owner) = split m others in
    ok (record { name = name; symbol = symbol; owner = owner })
decode_config bs = err (other (text "parse"))

abbrev pub config_codec : Codec ConfigResponse
config_codec = record {
  to_binary = λ r. ok (length r.name ∷ length r.symbol ∷ (r.name ++ (r.symbol ++ r.owner)));
  from_binary = decode_config;
}

pub config_codec-RoundTrips : RoundTrips config_codec
config_codec-RoundTrips = record {
  from-to = λ r b e.
      ground (arith, split-append r.name (r.symbol ++ r.owner), split-append r.symbol r.owner);
}

abbrev pub begun : InitMsg
begun = record {
  name = text "Relayer";
  symbol = text "RLY";
  initial_balances =
      record { address = text "alice"; amount = 100 }
      ∷ record { address = text "bob"; amount = 7 }
      ∷ record { address = text "alice"; amount = 250 }
      ∷ [];
}

abbrev pub market_of : Text → InstantiateMsg
market_of denom = record {
  owner_addr = text "owner";
  stable_denom = denom;
  aterra_code_id = 11;
  anc_emission_rate = 3;
  max_borrow_factor = 900_000_000_000_000_000;
}

abbrev pub nothing : Items
nothing = (([], []), sample_storage)
