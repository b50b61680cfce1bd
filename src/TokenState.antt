-- ===== src/TokenState.antt =====
-- src/state.rs: the configuration of the token and the balances, over the storage of
-- `cosmwasm_storage`, which is a parameter.
pub mod Laws
pub mod Sample
use anchor_staking_relayer.Prelude.{ℕ, ◌≡◌, ◌≢◌, Option, none, some}
use anchor_staking_relayer.Bytes.{Bytes, Text, text}
use anchor_staking_relayer.Outcome.{ok, err, panic}
use anchor_staking_relayer.Platform.{StdResult}

pub record Config : Type 0 where
  pub name : Text
  pub symbol : Text
  pub owner : Bytes

-- `Singleton::save` and `load` of a key, and `Bucket::save` and `may_load` of a namespace and a key.
pub record Storage (S : Type 0) : Type 0 where
  pub singleton_save : Bytes → Config → S → StdResult S
  pub singleton_load : Bytes → S → StdResult Config
  pub bucket_save : Bytes → Bytes → ℕ → S → StdResult S
  pub bucket_may_load : Bytes → Bytes → S → StdResult (Option ℕ)

-- What was saved under a key is loaded from it, and no save changes what is under another key. The
-- keys of a bucket are apart from the key of a singleton.
pub record IsStorage {S : Type 0} (storage : Storage S) : Type 0 where
  pub load-save :
      (k : Bytes) (c : Config) (s s' : S)
      → storage.singleton_save k c s ≡ ok s'
      → storage.singleton_load k s' ≡ ok c
  pub may_load-save :
      (b k : Bytes) (v : ℕ) (s s' : S)
      → storage.bucket_save b k v s ≡ ok s'
      → storage.bucket_may_load b k s' ≡ ok (some v)
  pub may_load-save_ne :
      (b k j : Bytes) (v : ℕ) (s s' : S)
      → j ≢ k
      → storage.bucket_save b k v s ≡ ok s'
      → storage.bucket_may_load b j s' ≡ storage.bucket_may_load b j s
  pub may_load-singleton_save :
      (b k j : Bytes) (c : Config) (s s' : S)
      → b ≢ k
      → storage.singleton_save k c s ≡ ok s'
      → storage.bucket_may_load b j s' ≡ storage.bucket_may_load b j s

abbrev pub config_key : Bytes
config_key = text "config"

abbrev pub balance_key : Bytes
balance_key = text "balance"

module _ {S : Type 0} (storage : Storage S) where
  unfoldable pub config_set : Config → S → StdResult S
  config_set config = storage.singleton_save config_key config

  unfoldable pub config_get : S → StdResult Config
  config_get = storage.singleton_load config_key

  unfoldable pub balance_set : Bytes → ℕ → S → StdResult S
  balance_set address amount = storage.bucket_save balance_key address amount

  -- An address without a balance, or with one that cannot be read, has zero.
  unfoldable pub balance_get : Bytes → S → StdResult ℕ
  balance_get address s = elim (storage.bucket_may_load balance_key address s) [
    | ok found ↦ elim found [ none ↦ ok 0 | some amount ↦ ok amount ]
    | err e ↦ ok 0
    | panic ↦ panic
  ]
