-- ===== src/Contract/Init/Success.antt =====
-- `init` over a storage that takes every write.
use anchor_staking_relayer.Prelude.{ℕ, ◌≡◌, List, [], ◌∷◌}
use anchor_staking_relayer.Bytes.{Bytes}
use anchor_staking_relayer.Outcome.{ok}
use anchor_staking_relayer.Platform.{Api}
use anchor_staking_relayer.TokenMsg.{InitialBalance}
use anchor_staking_relayer.TokenState
use anchor_staking_relayer.TokenState.{Storage}
use anchor_staking_relayer.MarketState.{Config, State, Store}

-- No write fails.
pub record IsWritable {S : Type 0} (storage : Storage S) (store : Store S) : Type 0 where
  pub saves_config :
      (k : Bytes) (c : TokenState.Config) (s : S)
      → (s' : S) × (storage.singleton_save k c s ≡ ok s')
  pub saves_amount :
      (b k : Bytes) (v : ℕ) (s : S) → (s' : S) × (storage.bucket_save b k v s ≡ ok s')
  pub stores_config : (c : Config) (s : S) → (s' : S) × (store.store_config c s ≡ ok s')
  pub stores_state : (st : State) (s : S) → (s' : S) × (store.store_state st s ≡ ok s')

-- The platform converts the address of every row.
abbrev pub IsConverted : Api → List InitialBalance → Type 0
IsConverted api [] = Unit
IsConverted api (row ∷ rows) =
    ((a : Bytes) × (api.canonical_address row.address ≡ ok a)) × IsConverted api rows
