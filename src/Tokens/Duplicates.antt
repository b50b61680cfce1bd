-- ===== src/Tokens/Duplicates.antt =====
-- `assert_duplicate_token`, which compares neighbours, on a sorted list.
use mathlib.Core.Path.{fun_ext}
use anchor_staking_relayer.Prelude.{
  ◌≡◌, refl, Bool, true, false, [], ◌∷◌, if◌then◌else◌, all, arith,
}
use anchor_staking_relayer.Bytes.{Bytes, bytes_eq}
use anchor_staking_relayer.Bytes.Order.{
  Before, bytes_eq-cmp, cmp_eq→eq, cmp_gt→Before, Before-trans,
}
use anchor_staking_relayer.Outcome.{ok, panic}
use anchor_staking_relayer.Tokens.{
  Token, Tokens, insert_token, sort_tokens, assert_from, assert_duplicate_token,
}
use anchor_staking_relayer.Tokens.Amounts.{amount_of, contains, distinct, covers, covered}
use anchor_staking_relayer.Tokens.Sorted.{
  IsBefore, IsAscending, not_after, IsNotAfter, IsSorted, sort-IsSorted, contains-insert,
  contains-sort, amount_of-sort,
}

-- A list that begins behind an address does not hold it.
pub contains-IsBefore : (k : Bytes) (ts : Tokens) → IsBefore k ts → contains k ts ≡ false
contains-IsBefore k [] h = refl
contains-IsBefore k (t ∷ ts) h = ground (arith, bytes_eq-cmp k t.0, contains-IsBefore k ts h.1)

pub amount_of-IsBefore : (k : Bytes) (ts : Tokens) → IsBefore k ts → amount_of k ts ≡ 0
amount_of-IsBefore k [] h = refl
amount_of-IsBefore k (t ∷ ts) h = ground (arith, bytes_eq-cmp k t.0, amount_of-IsBefore k ts h.1)

-- In order and not equal is before.
not_after-Before : (a b : Bytes) → not_after a b ≡ true → bytes_eq a b ≡ false → Before a b
not_after-Before a b h k = ground (arith, bytes_eq-cmp a b)

-- From a list in order behind `a` that does not hold `a`.
absent-IsBefore :
    (a : Bytes) (ts : Tokens) → IsNotAfter a ts → contains a ts ≡ false → IsBefore a ts
absent-IsBefore a [] h k = tt
absent-IsBefore a (t ∷ ts) h k = ground (arith, not_after-Before a t.0, absent-IsBefore a ts h.1)

pub distinct-IsAscending : (ts : Tokens) → IsSorted ts → distinct ts ≡ true → IsAscending ts
distinct-IsAscending [] h k = tt
distinct-IsAscending (t ∷ ts) h k =
    ground (arith, absent-IsBefore t.0 ts h.0, distinct-IsAscending ts h.1)

distinct-insert : (t : Token) (ts : Tokens) → distinct (insert_token t ts) ≡ distinct (t ∷ ts)
unfolding insert_token
distinct-insert t [] = refl
distinct-insert t (u ∷ us) = ground (
  arith,
  distinct-insert t us,
  contains-insert u.0 t us,
  bytes_eq-cmp t.0 u.0,
  bytes_eq-cmp u.0 t.0,
  cmp_gt→Before t.0 u.0,
)

pub distinct-sort : (ts : Tokens) → distinct (sort_tokens ts) ≡ distinct ts
unfolding sort_tokens
distinct-sort [] = refl
distinct-sort (t ∷ ts) =
    rw (distinct-insert t (sort_tokens ts), contains-sort t.0 ts, distinct-sort ts)

Before-not_after : (a b c : Bytes) → Before a b → not_after b c ≡ true → Before a c
Before-not_after a b c h k = ground (arith, cmp_eq→eq b c, Before-trans a b c)

IsNotAfter-IsBefore : (a b : Bytes) (ts : Tokens) → Before a b → IsNotAfter b ts → IsBefore a ts
IsNotAfter-IsBefore a b [] h k = tt
IsNotAfter-IsBefore a b (t ∷ ts) h (k, ks) =
    (Before-not_after a b t.0 h k, IsNotAfter-IsBefore a b ts h ks)

-- Behind `before_token`, in order: the loop panics exactly if an address is there twice.
assert_from-distinct :
    (before_token : Bytes) (ts : Tokens)
    → IsNotAfter before_token ts
    → IsSorted ts
    → assert_from before_token ts
      ≡ (if contains before_token ts then panic else if distinct ts then ok tt else panic)
unfolding assert_from
assert_from-distinct a [] h s = refl
assert_from-distinct a (t ∷ ts) h s = ground (
  arith,
  assert_from-distinct t.0 ts s.0 s.1,
  not_after-Before a t.0,
  IsNotAfter-IsBefore a t.0 ts,
  contains-IsBefore a ts,
)

assert_sorted-distinct :
    (ts : Tokens) → IsSorted ts → assert_duplicate_token ts ≡ (if distinct ts then ok tt else panic)
unfolding assert_duplicate_token
assert_sorted-distinct [] s = refl
assert_sorted-distinct (t ∷ []) s = refl
assert_sorted-distinct (t ∷ u ∷ rest) s =
    ground (arith, assert_from-distinct t.0 (u ∷ rest) s.0 s.1)

-- After the sort the assertion panics exactly if some address has two entries, wherever the two
-- stood before it.
pub assert_duplicate_token-sort :
    (ts : Tokens) → assert_duplicate_token (sort_tokens ts) ≡ (if distinct ts then ok tt else panic)
assert_duplicate_token-sort ts =
    rw (← distinct-sort ts) (assert_sorted-distinct (sort_tokens ts) (sort-IsSorted ts))

-- `covered` asks the same of sorted lists.
all-insert :
    (p : Token → Bool) (t : Token) (ts : Tokens) → all p (insert_token t ts) ≡ all p (t ∷ ts)
unfolding insert_token
all-insert p t [] = refl
all-insert p t (u ∷ us) = ground (arith, all-insert p t us)

pub all-sort : (p : Token → Bool) (ts : Tokens) → all p (sort_tokens ts) ≡ all p ts
unfolding sort_tokens
all-sort p [] = refl
all-sort p (t ∷ ts) = rw (all-insert p t (sort_tokens ts), all-sort p ts)

covers-sort : (self : Tokens) (t : Token) → covers (sort_tokens self) t ≡ covers self t
covers-sort self t = simp (contains-sort, amount_of-sort)

pub covered-sort :
    (self tokens : Tokens) → covered (sort_tokens self) (sort_tokens tokens) ≡ covered self tokens
covered-sort self tokens =
    rw (all-sort (covers (sort_tokens self)) tokens, fun_ext (covers-sort self))
