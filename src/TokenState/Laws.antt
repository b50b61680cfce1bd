-- ===== src/TokenState/Laws.antt =====
-- Balances are read as they were set, each address apart from the others.
use anchor_staking_relayer.Prelude.{ℕ, ◌≡◌, if◌then◌else◌, inl, inr, Bool-cases, arith}
use anchor_staking_relayer.Bytes.{Bytes, bytes_eq}
use anchor_staking_relayer.Bytes.Order.{bytes_eq→eq, bytes_eq_refl}
use anchor_staking_relayer.Outcome.{ok}
use anchor_staking_relayer.TokenState.{
  Config, Storage, IsStorage, config_key, balance_key, config_set, config_get, balance_set,
  balance_get,
}

module _ {S : Type 0} (storage : Storage S) (laws : IsStorage storage) (s s' : S) where
  pub balance_get-balance_set :
      (k j : Bytes) (amount : ℕ)
      → balance_set storage k amount s ≡ ok s'
      → balance_get storage j s' ≡ (if bytes_eq j k then ok amount else balance_get storage j s)
  unfolding balance_set balance_get
  balance_get-balance_set k j amount saved = elim (Bool-cases (bytes_eq j k)) [
    | inl same ↦
        ground (arith, bytes_eq→eq j k same, laws.may_load-save balance_key k amount s s' saved)
    | inr different ↦ ground (
      arith,
      laws.may_load-save_ne balance_key k j amount s s' (λ e. ground (arith, bytes_eq_refl k))
          saved,
    )
  ]

  pub balance_get-config_set :
      (c : Config) (j : Bytes)
      → config_set storage c s ≡ ok s'
      → balance_get storage j s' ≡ balance_get storage j s
  unfolding config_set balance_get
  balance_get-config_set c j saved =
      ground
        (arith, laws.may_load-singleton_save balance_key config_key j c s s' (ground arith) saved)

  pub config_get-config_set :
      (c : Config) → config_set storage c s ≡ ok s' → config_get storage s' ≡ ok c
  unfolding config_set config_get
  config_get-config_set c = laws.load-save config_key c s s'
