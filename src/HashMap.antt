-- ===== src/HashMap.antt =====
-- `std::collections::HashMap`, as the mock querier uses it: the entries, one for each key.
pub mod Laws
use anchor_staking_relayer.Prelude.{
  Bool, true, ◌&&◌, ◌≡◌, Option, none, some, List, [], ◌∷◌, if◌then◌else◌, ap, refl, arith,
}
use anchor_staking_relayer.Bytes.{Bytes, bytes_eq}
use anchor_staking_relayer.Bytes.Order.{bytes_eq→eq, bytes_eq_refl}

-- `Eq` of a key, which is equality.
pub record Key {ℓ} (K : Type ℓ) : Type ℓ where
  pub same : K → K → Bool
  pub same_refl : (k : K) → same k k ≡ true
  pub same→eq : (j k : K) → same j k ≡ true → j ≡ k

instance abbrev pub bytes_key : Key Bytes
bytes_key = record { same = bytes_eq; same_refl = bytes_eq_refl; same→eq = bytes_eq→eq }

module _ {ℓ κ} {J : Type ℓ} {K : Type κ} ⦃j : Key J⦄ ⦃k : Key K⦄ where
  abbrev pub same_pair : J × K → J × K → Bool
  same_pair a b = j.same a.0 b.0 && k.same a.1 b.1

  pub same_pair_refl : (a : J × K) → same_pair a a ≡ true
  same_pair_refl a = ground (arith, j.same_refl a.0, k.same_refl a.1)

  pub same_pair→eq : (a b : J × K) → same_pair a b ≡ true → a ≡ b
  same_pair→eq a b e = ground (arith, j.same→eq a.0 b.0, k.same→eq a.1 b.1)

  instance abbrev pub pair_key : Key (J × K)
  pair_key = record { same = same_pair; same_refl = same_pair_refl; same→eq = same_pair→eq }

module _ {ℓ κ} {K : Type ℓ} {V : Type κ} ⦃key : Key K⦄ where
  unfoldable pub get : K → List (K × V) → Option V
  get k [] = none
  get k ((j, v) ∷ m) = if key.same k j then some v else get k m

  -- The value of a key that is there is replaced.
  unfoldable pub insert : K → V → List (K × V) → List (K × V)
  insert k v [] = (k, v) ∷ []
  insert k v ((j, w) ∷ m) = if key.same k j then (j, v) ∷ m else (j, w) ∷ insert k v m

  -- A loop that inserts row after row.
  unfoldable pub insert_all : List (K × V) → List (K × V) → List (K × V)
  unfolding insert
  insert_all [] m = m
  insert_all ((k, v) ∷ rows) m = insert_all rows (insert k v m)

  -- The value of the last row of a key, and what there was before without one.
  abbrev pub last_row : K → List (K × V) → Option V → Option V
  last_row k [] before = before
  last_row k ((j, v) ∷ rows) before = last_row k rows (if key.same k j then some v else before)
