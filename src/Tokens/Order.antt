-- ===== src/Tokens/Order.antt =====
-- `add` and `sub` and the order in which a list gives its entries.
use mathlib.Core.List.{Perm, Permᴰ}
use mathlib.Core.Logic.{∥∥₁_elim}
use anchor_staking_relayer.Prelude.{◌≡◌, refl, ap, ◌∙◌, true, false, [], ◌∷◌, arith}
use anchor_staking_relayer.Bytes.{Bytes, bytes_eq}
use anchor_staking_relayer.Bytes.Order.{
  cmp_refl, cmp_eq→eq, cmp_gt→Before, Before→cmp_gt, Before-trans, bytes_eq-cmp,
}
use anchor_staking_relayer.BigNumber.{BigNumber}
use anchor_staking_relayer.Tokens.{Token, Tokens, insert_token, sort_tokens, sub, add}
use anchor_staking_relayer.Tokens.Amounts.{contains, distinct}
use anchor_staking_relayer.Tokens.Duplicates.{assert_duplicate_token-sort}

-- Two entries of different addresses are inserted in either order.
insert_swap :
    (s t : Token) (ts : Tokens)
    → bytes_eq s.0 t.0 ≡ false
    → insert_token s (insert_token t ts) ≡ insert_token t (insert_token s ts)
unfolding insert_token
insert_swap s t [] h =
    ground (arith, bytes_eq-cmp s.0 t.0, cmp_gt→Before s.0 t.0, Before→cmp_gt s.0 t.0)
insert_swap s t (u ∷ us) h = ground (
  arith,
  insert_swap s t us h,
  bytes_eq-cmp s.0 t.0,
  cmp_gt→Before s.0 t.0,
  Before→cmp_gt s.0 t.0,
  cmp_gt→Before s.0 u.0,
  cmp_gt→Before t.0 u.0,
  cmp_eq→eq s.0 u.0,
  cmp_eq→eq t.0 u.0,
  Before-trans s.0 u.0 t.0,
  Before-trans t.0 u.0 s.0,
)

contains-Permᴰ : (k : Bytes) {ts us : Tokens} → Permᴰ ts us → contains k ts ≡ contains k us
contains-Permᴰ k Permᴰ.nil = refl
contains-Permᴰ k (Permᴰ.cons e p) = ground (arith, e, contains-Permᴰ k p)
contains-Permᴰ k (Permᴰ.swap e f) = ground (arith, e, f)
contains-Permᴰ k (Permᴰ.trans p q) = contains-Permᴰ k p ∙ contains-Permᴰ k q

distinct_swap : (s t : Token) (ts : Tokens) → distinct (s ∷ t ∷ ts) ≡ distinct (t ∷ s ∷ ts)
distinct_swap s t ts = ground (
  arith,
  bytes_eq-cmp s.0 t.0,
  bytes_eq-cmp t.0 s.0,
  cmp_gt→Before s.0 t.0,
  Before→cmp_gt s.0 t.0,
  cmp_eq→eq s.0 t.0,
  cmp_refl s.0,
)

distinct-Permᴰ : {ts us : Tokens} → Permᴰ ts us → distinct ts ≡ distinct us
distinct-Permᴰ Permᴰ.nil = refl
distinct-Permᴰ (Permᴰ.cons {a = a} e p) = ground (arith, e, contains-Permᴰ a.0 p, distinct-Permᴰ p)
distinct-Permᴰ (Permᴰ.swap {a = a} {b = b} {a' = a'} {l = l} e f) =
    distinct_swap a b l ∙ (ap (λ t. distinct (t ∷ a ∷ l)) f ∙ ap (λ t. distinct (a' ∷ t ∷ l)) e)
distinct-Permᴰ (Permᴰ.trans p q) = distinct-Permᴰ p ∙ distinct-Permᴰ q

sort-Permᴰ : {ts us : Tokens} → Permᴰ ts us → distinct ts ≡ true → sort_tokens ts ≡ sort_tokens us
unfolding sort_tokens
sort-Permᴰ Permᴰ.nil h = refl
sort-Permᴰ (Permᴰ.cons e p) h = ground (arith, e, sort-Permᴰ p)
sort-Permᴰ (Permᴰ.swap {a = a} {b = b} {l = l} e f) h =
    ground (arith, e, f, insert_swap a b (sort_tokens l))
sort-Permᴰ (Permᴰ.trans p q) h = ground (arith, sort-Permᴰ p h, sort-Permᴰ q, distinct-Permᴰ p)

-- The sort of a permutation, where no address has two entries.
sort-Perm : {ts us : Tokens} → Perm ts us → distinct ts ≡ true → sort_tokens ts ≡ sort_tokens us
sort-Perm p h = ∥∥₁_elim p (hlevel) (λ q. sort-Permᴰ q h)

distinct-Perm : {ts us : Tokens} → Perm ts us → distinct ts ≡ distinct us
distinct-Perm p = ∥∥₁_elim p (hlevel) distinct-Permᴰ

module _ (n : BigNumber) {self self' tokens tokens' : Tokens} (p : Perm self self')
    (q : Perm tokens tokens') where
  -- `add` gives the same for a permutation of either list: the same total, or a panic for both.
  pub add-Perm : add n self tokens ≡ add n self' tokens'
  unfolding add
  add-Perm = ground (
    arith,
    sort-Perm p,
    sort-Perm q,
    distinct-Perm p,
    distinct-Perm q,
    assert_duplicate_token-sort self,
    assert_duplicate_token-sort self',
    assert_duplicate_token-sort tokens,
    assert_duplicate_token-sort tokens',
  )

  -- Where no address of `self` has two entries, `sub` gives the same for a permutation of either list,
  -- in its result and in what it leaves in `self`.
  pub sub-Perm : distinct self ≡ true → sub n self tokens ≡ sub n self' tokens'
  unfolding sub
  sub-Perm h = ground (
    arith,
    sort-Perm p,
    sort-Perm q,
    distinct-Perm q,
    assert_duplicate_token-sort self,
    assert_duplicate_token-sort tokens,
    assert_duplicate_token-sort tokens',
  )
