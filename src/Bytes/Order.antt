-- ===== src/Bytes/Order.antt =====
-- The comparison of byte strings is a strict total order, and agrees with their equality.
use anchor_staking_relayer.Prelude.{◌≡◌, refl, true, false, [], ◌∷◌, Ordering, arith}
use anchor_staking_relayer.Bytes.{Bytes, bytes_eq, cmp}

-- `a` stands before `b`.
abbrev pub Before : Bytes → Bytes → Type 0
Before a b = cmp a b ≡ Ordering.lt

pub bytes_eq_refl : (a : Bytes) → bytes_eq a a ≡ true
unfolding bytes_eq
bytes_eq_refl [] = refl
bytes_eq_refl (x ∷ xs) = ground (arith, bytes_eq_refl xs)

pub bytes_eq→eq : (a b : Bytes) → bytes_eq a b ≡ true → a ≡ b
unfolding bytes_eq
bytes_eq→eq [] [] h = refl
bytes_eq→eq [] (y ∷ ys) h = cc
bytes_eq→eq (x ∷ xs) [] h = cc
bytes_eq→eq (x ∷ xs) (y ∷ ys) h = ground (arith, bytes_eq→eq xs ys)

pub cmp_refl : (a : Bytes) → cmp a a ≡ Ordering.eq
unfolding cmp
cmp_refl [] = refl
cmp_refl (x ∷ xs) = ground (arith, cmp_refl xs)

pub cmp_eq→eq : (a b : Bytes) → cmp a b ≡ Ordering.eq → a ≡ b
unfolding cmp
cmp_eq→eq [] [] h = refl
cmp_eq→eq [] (y ∷ ys) h = cc
cmp_eq→eq (x ∷ xs) [] h = cc
cmp_eq→eq (x ∷ xs) (y ∷ ys) h = ground (arith, cmp_eq→eq xs ys)

-- The two comparisons agree.
pub bytes_eq-cmp :
    (a b : Bytes)
    → bytes_eq a b
      ≡ elim (cmp a b) [ Ordering.lt ↦ false | Ordering.eq ↦ true | Ordering.gt ↦ false ]
unfolding bytes_eq cmp
bytes_eq-cmp [] [] = refl
bytes_eq-cmp [] (y ∷ ys) = refl
bytes_eq-cmp (x ∷ xs) [] = refl
bytes_eq-cmp (x ∷ xs) (y ∷ ys) = ground (arith, bytes_eq-cmp xs ys)

pub cmp_gt→Before : (a b : Bytes) → cmp a b ≡ Ordering.gt → Before b a
unfolding cmp
cmp_gt→Before [] [] h = cc
cmp_gt→Before [] (y ∷ ys) h = cc
cmp_gt→Before (x ∷ xs) [] h = refl
cmp_gt→Before (x ∷ xs) (y ∷ ys) h = ground (arith, cmp_gt→Before xs ys)

pub Before→cmp_gt : (a b : Bytes) → Before a b → cmp b a ≡ Ordering.gt
unfolding cmp
Before→cmp_gt [] [] h = cc
Before→cmp_gt [] (y ∷ ys) h = refl
Before→cmp_gt (x ∷ xs) [] h = cc
Before→cmp_gt (x ∷ xs) (y ∷ ys) h = ground (arith, Before→cmp_gt xs ys)

pub Before-trans : (a b c : Bytes) → Before a b → Before b c → Before a c
unfolding cmp
Before-trans [] [] c h k = cc
Before-trans [] (y ∷ ys) [] h k = cc
Before-trans [] (y ∷ ys) (z ∷ zs) h k = refl
Before-trans (x ∷ xs) [] c h k = cc
Before-trans (x ∷ xs) (y ∷ ys) [] h k = cc
Before-trans (x ∷ xs) (y ∷ ys) (z ∷ zs) h k = ground (arith, Before-trans xs ys zs)
