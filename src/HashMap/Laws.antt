-- ===== src/HashMap/Laws.antt =====
-- What is read from a map after the inserts.
use anchor_staking_relayer.Prelude.{◌≡◌, List, [], ◌∷◌, some, if◌then◌else◌, refl, arith, ap, ◌∙◌}
use anchor_staking_relayer.HashMap.{Key, get, insert, insert_all, last_row}

module _ {ℓ κ} {K : Type ℓ} {V : Type κ} ⦃key : Key K⦄ where
  pub get-insert :
      (j k : K) (v : V) (m : List (K × V))
      → get j (insert k v m) ≡ (if key.same j k then some v else get j m)
  unfolding get insert
  get-insert j k v [] = ground arith
  get-insert j k v ((i, w) ∷ m) = ground (
    arith,
    get-insert j k v m,
    key.same→eq k i,
    key.same→eq j i,
    key.same→eq j k,
    key.same_refl k,
  )

  pub get-insert_all :
      (k : K) (rows m : List (K × V)) → get k (insert_all rows m) ≡ last_row k rows (get k m)
  unfolding insert_all
  get-insert_all k [] m = refl
  get-insert_all k ((j, v) ∷ rows) m =
      get-insert_all k rows (insert j v m) ∙ ap (last_row k rows) (get-insert k j v m)
