-- ===== src/Tokens/Sorted.antt =====
-- `sort_tokens` puts the addresses in order and keeps what a list holds.
use anchor_staking_relayer.Prelude.{◌≡◌, refl, Bool, true, false, [], ◌∷◌, Ordering, arith}
use anchor_staking_relayer.Bytes.{Bytes, cmp}
use anchor_staking_relayer.Bytes.Order.{
  Before, bytes_eq→eq, cmp_refl, cmp_eq→eq, cmp_gt→Before, Before-trans,
}
use anchor_staking_relayer.Tokens.{Token, Tokens, insert_token, sort_tokens}
use anchor_staking_relayer.Tokens.Amounts.{amount_of, contains}

-- Every address of the list stands behind `a`.
abbrev pub IsBefore : Bytes → Tokens → Type 0
IsBefore a [] = Unit
IsBefore a (t ∷ ts) = Before a t.0 × IsBefore a ts

abbrev pub IsAscending : Tokens → Type 0
IsAscending [] = Unit
IsAscending (t ∷ ts) = IsBefore t.0 ts × IsAscending ts

-- Order with ties, as the sort leaves it.
abbrev pub not_after : Bytes → Bytes → Bool
not_after a b = elim (cmp a b) [ Ordering.gt ↦ false | _ ↦ true ]

abbrev pub IsNotAfter : Bytes → Tokens → Type 0
IsNotAfter a [] = Unit
IsNotAfter a (t ∷ ts) = (not_after a t.0 ≡ true) × IsNotAfter a ts

abbrev pub IsSorted : Tokens → Type 0
IsSorted [] = Unit
IsSorted (t ∷ ts) = IsNotAfter t.0 ts × IsSorted ts

pub IsBefore-weaken : (a b : Bytes) (ts : Tokens) → Before a b → IsBefore b ts → IsBefore a ts
IsBefore-weaken a b [] h k = tt
IsBefore-weaken a b (t ∷ ts) h (k, ks) = (Before-trans a b t.0 h k, IsBefore-weaken a b ts h ks)

not_after_trans :
    (a b c : Bytes) → not_after a b ≡ true → not_after b c ≡ true → not_after a c ≡ true
not_after_trans a b c h k = ground (arith, cmp_eq→eq a b, cmp_eq→eq b c, Before-trans a b c)

pub IsNotAfter-weaken :
    (a b : Bytes) (ts : Tokens) → not_after a b ≡ true → IsNotAfter b ts → IsNotAfter a ts
IsNotAfter-weaken a b [] h k = tt
IsNotAfter-weaken a b (t ∷ ts) h (k, ks) =
    (not_after_trans a b t.0 h k, IsNotAfter-weaken a b ts h ks)

IsNotAfter-insert :
    (a : Bytes) (t : Token) (ts : Tokens)
    → not_after a t.0 ≡ true
    → IsNotAfter a ts
    → IsNotAfter a (insert_token t ts)
unfolding insert_token
IsNotAfter-insert a t [] h k = (h, tt)
IsNotAfter-insert a t (u ∷ us) h (k, ks) = ground (arith, IsNotAfter-insert a t us h ks)

insert-IsSorted : (t : Token) (ts : Tokens) → IsSorted ts → IsSorted (insert_token t ts)
unfolding insert_token
insert-IsSorted t [] h = (tt, tt)
insert-IsSorted t (u ∷ us) (h, hs) = ground (
  arith,
  insert-IsSorted t us hs,
  IsNotAfter-weaken t.0 u.0 us,
  IsNotAfter-insert u.0 t us,
  cmp_gt→Before t.0 u.0,
)

pub sort-IsSorted : (ts : Tokens) → IsSorted (sort_tokens ts)
unfolding sort_tokens
sort-IsSorted [] = tt
sort-IsSorted (t ∷ ts) = insert-IsSorted t (sort_tokens ts) (sort-IsSorted ts)

-- What a list holds does not depend on the order of its addresses.
amount_of-insert :
    (k : Bytes) (t : Token) (ts : Tokens) → amount_of k (insert_token t ts) ≡ amount_of k (t ∷ ts)
unfolding insert_token
amount_of-insert k t [] = refl
amount_of-insert k t (u ∷ us) =
    ground (arith, amount_of-insert k t us, bytes_eq→eq k t.0, bytes_eq→eq k u.0, cmp_refl k)

pub contains-insert :
    (k : Bytes) (t : Token) (ts : Tokens) → contains k (insert_token t ts) ≡ contains k (t ∷ ts)
unfolding insert_token
contains-insert k t [] = refl
contains-insert k t (u ∷ us) = ground (arith, contains-insert k t us)

pub amount_of-sort : (k : Bytes) (ts : Tokens) → amount_of k (sort_tokens ts) ≡ amount_of k ts
unfolding sort_tokens
amount_of-sort k [] = refl
amount_of-sort k (t ∷ ts) = rw (amount_of-insert k t (sort_tokens ts), amount_of-sort k ts) refl

pub contains-sort : (k : Bytes) (ts : Tokens) → contains k (sort_tokens ts) ≡ contains k ts
unfolding sort_tokens
contains-sort k [] = refl
contains-sort k (t ∷ ts) = rw (contains-insert k t (sort_tokens ts), contains-sort k ts) refl
