-- ===== src/Tokens/Add.antt =====
-- `TokensMath::add`: the list that its loops push, as a plain merge.
pub mod Laws
pub mod Overflow
use anchor_staking_relayer.Prelude.{◌+◌, ◌<◌, ◌≡◌, refl, [], ◌∷◌, Ordering, arith}
use anchor_staking_relayer.Bytes.{Bytes, cmp}
use anchor_staking_relayer.Bytes.Order.{
  bytes_eq-cmp, bytes_eq→eq, cmp_eq→eq, cmp_gt→Before, Before→cmp_gt, bytes_eq_refl,
}
use anchor_staking_relayer.Outcome.{ok}
use anchor_staking_relayer.BigNumber.{BigNumber, IsExact, uint256_values}
use anchor_staking_relayer.Tokens.{Tokens, Token, add_loop}
use anchor_staking_relayer.Tokens.Amounts.{amount_of}
use anchor_staking_relayer.Tokens.Sorted.{IsBefore, IsAscending, IsBefore-weaken}
use anchor_staking_relayer.Tokens.Duplicates.{amount_of-IsBefore}

-- The sum of the two amounts of every address is a `Uint256`.
abbrev pub Fits : Tokens → Tokens → Type 0
Fits self tokens = (k : Bytes) → amount_of k self + amount_of k tokens < uint256_values

pub merged : Tokens → Tokens → Tokens
merged [] tokens = tokens
merged (s ∷ self) [] = s ∷ self
merged (s ∷ self) (t ∷ tokens) = elim (cmp s.0 t.0) [
  | Ordering.lt ↦ s ∷ merged self (t ∷ tokens)
  | Ordering.eq ↦ (s.0, s.1 + t.1) ∷ merged self tokens
  | Ordering.gt ↦ t ∷ merged (s ∷ self) tokens
]

IsBefore-merged :
    (a : Bytes) (self tokens : Tokens)
    → IsBefore a self
    → IsBefore a tokens
    → IsBefore a (merged self tokens)
unfolding merged
IsBefore-merged a [] tokens hs ht = ht
IsBefore-merged a (s ∷ self) [] hs ht = hs
IsBefore-merged a (s ∷ self) (t ∷ tokens) (h, hs) (p, ps) = ground (
  arith,
  IsBefore-merged a self tokens hs ps,
  IsBefore-merged a self (t ∷ tokens) hs (p, ps),
  IsBefore-merged a (s ∷ self) tokens (h, hs) ps,
)

pub IsAscending-merged :
    (self tokens : Tokens)
    → IsAscending self
    → IsAscending tokens
    → IsAscending (merged self tokens)
unfolding merged
IsAscending-merged [] tokens hs ht = ht
IsAscending-merged (s ∷ self) [] hs ht = hs
IsAscending-merged (s ∷ self) (t ∷ tokens) (h, hs) (p, ps) = ground (
  arith,
  cmp_eq→eq s.0 t.0,
  cmp_gt→Before s.0 t.0,
  IsAscending-merged self tokens hs ps,
  IsAscending-merged self (t ∷ tokens) hs (p, ps),
  IsAscending-merged (s ∷ self) tokens (h, hs) ps,
  IsBefore-merged s.0 self tokens h,
  IsBefore-merged s.0 self (t ∷ tokens) h,
  IsBefore-merged t.0 (s ∷ self) tokens,
  IsBefore-weaken s.0 t.0 tokens,
  IsBefore-weaken t.0 s.0 self,
)

pub amount_of-merged :
    (k : Bytes) (self tokens : Tokens)
    → IsAscending self
    → IsAscending tokens
    → amount_of k (merged self tokens) ≡ amount_of k self + amount_of k tokens
unfolding merged
amount_of-merged k [] tokens hs ht = omega arith
amount_of-merged k (s ∷ self) [] hs ht = omega arith
amount_of-merged k (s ∷ self) (t ∷ tokens) (h, hs) (p, ps) = ground (
  arith,
  cmp_eq→eq s.0 t.0,
  cmp_gt→Before s.0 t.0,
  bytes_eq→eq k s.0,
  bytes_eq→eq k t.0,
  bytes_eq-cmp s.0 t.0,
  bytes_eq-cmp t.0 s.0,
  Before→cmp_gt s.0 t.0,
  amount_of-IsBefore s.0 (t ∷ tokens),
  amount_of-IsBefore t.0 (s ∷ self),
  IsBefore-weaken s.0 t.0 tokens,
  IsBefore-weaken t.0 s.0 self,
  amount_of-merged k self tokens hs ps,
  amount_of-merged k self (t ∷ tokens) hs (p, ps),
  amount_of-merged k (s ∷ self) tokens (h, hs) ps,
)

module _ (n : BigNumber) (exact : IsExact n) where
  -- Where the sums fit the loops push the merge.
  pub add_loop-merged :
      (self tokens : Tokens)
      → IsAscending self
      → IsAscending tokens
      → Fits self tokens
      → add_loop n self tokens ≡ ok (merged self tokens)
  unfolding add_loop merged
  add_loop-merged [] tokens hs ht f = refl
  add_loop-merged (s ∷ self) [] hs ht f = refl
  add_loop-merged (s ∷ self) (t ∷ tokens) (h, hs) (p, ps) f = ground (
    arith,
    bytes_eq-cmp s.0 t.0,
    cmp_eq→eq s.0 t.0,
    bytes_eq_refl s.0,
    exact.add_exact s.1 t.1,
    f s.0,
    add_loop-merged self tokens hs ps (λ k. ground (
      arith,
      f k,
      bytes_eq→eq k s.0,
      bytes_eq→eq k t.0,
      amount_of-IsBefore s.0 self h,
      amount_of-IsBefore t.0 tokens p,
    )),
    add_loop-merged self (t ∷ tokens) hs (p, ps)
        (λ k. ground (arith, f k, bytes_eq→eq k s.0, amount_of-IsBefore s.0 self h)),
    add_loop-merged (s ∷ self) tokens (h, hs) ps
        (λ k. ground (arith, f k, bytes_eq→eq k t.0, amount_of-IsBefore t.0 tokens p)),
  )
