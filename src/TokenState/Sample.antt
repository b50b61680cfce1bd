-- ===== src/TokenState/Sample.antt =====
-- A small storage for the tests: the configurations and the balances are lists of what was saved,
-- the last first.
use anchor_staking_relayer.Prelude.{
  ℕ, Option, none, some, List, [], ◌∷◌, ◌&&◌, if◌then◌else◌, arith, inl, inr, Bool-cases,
}
use anchor_staking_relayer.Bytes.{Bytes, text, bytes_eq}
use anchor_staking_relayer.Bytes.Order.{bytes_eq→eq, bytes_eq_refl}
use anchor_staking_relayer.Outcome.{ok, err}
use anchor_staking_relayer.Platform.{StdResult, other}
use anchor_staking_relayer.TokenState.{Config, Storage, IsStorage}

-- What was saved, beside what is under other keys.
abbrev pub Saved : Type 0 → Type 0
Saved M = (List (Bytes × Config) × List (Bytes × Bytes × ℕ)) × M

abbrev load : List (Bytes × Config) → Bytes → StdResult Config
load [] k = err (other (text "not found"))
load ((j, c) ∷ rows) k = if bytes_eq k j then ok c else load rows k

abbrev may_load : List (Bytes × Bytes × ℕ) → Bytes → Bytes → Option ℕ
may_load [] b k = none
may_load ((c, j, v) ∷ rows) b k = if bytes_eq b c && bytes_eq k j then some v else may_load rows b k

module _ {M : Type 0} where
  abbrev pub sample_token_storage : Storage (Saved M)
  sample_token_storage = record {
    singleton_save = λ k c s. ok (((k, c) ∷ s.0.0, s.0.1), s.1);
    singleton_load = λ k s. load s.0.0 k;
    bucket_save = λ b k v s. ok ((s.0.0, (b, k, v) ∷ s.0.1), s.1);
    bucket_may_load = λ b k s. ok (may_load s.0.1 b k);
  }

  pub sample_token_storage-IsStorage : IsStorage sample_token_storage
  sample_token_storage-IsStorage = record {
    load-save = λ k c s s' e. ground (arith, bytes_eq_refl k);
    may_load-save = λ b k v s s' e. ground (arith, bytes_eq_refl k, bytes_eq_refl b);
    may_load-save_ne = λ b k j v s s' ne e. elim (Bool-cases (bytes_eq j k)) [
      | inl same ↦ absurd (ne (bytes_eq→eq j k same))
      | inr different ↦ ground arith
    ];
    may_load-singleton_save = λ b k j c s s' ne e. ground arith;
  }
